-- ===== src/Access.antt =====
-- Package access (internal/access): the viewer of a request.
pub mod Viewer
pub mod Normal
