-- ===== src/Web.antt =====
-- user/wm_web.c: the settings form, who may see a page, what a page shows, and the upload of a
-- firmware.
pub mod Form
pub mod Apply
pub mod Compare
pub mod Safety
pub mod Fields
pub mod Access
pub mod Template
pub mod Pages
pub mod Settings
pub mod Upload
