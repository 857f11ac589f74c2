-- ===== src/Paging.antt =====
-- kernel/memory/paging.c and include/memory/paging.h: the bitmap of physical frames, and the page
-- directory.
pub mod Frames
pub mod Directory
use kyro_kernel.Base.{ℕ}

abbrev pub page_size : ℕ
page_size = 4096

abbrev pub page_entries : ℕ
page_entries = 1024

abbrev pub page_present : ℕ
page_present = 0x01

abbrev pub page_writable : ℕ
page_writable = 0x02

abbrev pub page_user : ℕ
page_user = 0x04
