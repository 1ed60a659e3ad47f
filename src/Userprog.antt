-- ===== src/Userprog.antt =====
-- code/userprog: the bitmap that the kernel allocates pages and disk sectors with.
pub mod Bitmap
pub mod Exception
