-- ===== src/File.antt =====
-- io/disk/file.h and io/disk/file_op_stubs.c: file descriptors. The operations that a descriptor
-- points to are numbers, whose meaning the users of a descriptor take as a parameter.
use vv4os.Base.{ℕ}

pub data FileType : Type 0 where
  fd_type_file fd_type_directory fd_type_tty : FileType

pub record File : Type 0 where
  pub seek : ℕ
  pub size : ℕ
  pub volume : ℕ
  pub internal : ℕ
  pub traverse_op : ℕ
  pub read_op : ℕ
  pub write_op : ℕ
  pub local_id : ℕ
  pub kind : FileType
  pub next : ℕ

-- What the stub behind a descriptor with no read or write operation returns.
unfoldable pub file_access_op_stub : ℕ
file_access_op_stub = 0

-- `NULL`
unfoldable pub file_traverse_op_stub : ℕ
file_traverse_op_stub = 0
