-- ===== src/Paths/OnRamfs.antt =====
-- The RAM file system of kernel/fs/ramfs/ramfs.c as the system calls on paths use it.
use avengers.Namev.OnRamfs.{ramfs_ops}
use avengers.Paths.{DirOps}
use avengers.Ramfs.{Ramfs, Memory}
use avengers.Ramfs.Names

abbrev pub ramfs_dir_ops : Memory → DirOps Ramfs
ramfs_dir_ops m = record {
  nodes = ramfs_ops m;
  mknod = Names.mknod m;
  mkdir = Names.mkdir m;
  rmdir = Names.rmdir;
  unlink = Names.unlink;
  link = Names.link;
}
