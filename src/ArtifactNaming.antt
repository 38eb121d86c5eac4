-- ===== src/ArtifactNaming.antt =====
-- The names of backup archives, internal/artifactnaming/naming.go: templates with variables, the values
-- of the variables from a backup's context, and the checks of what comes out. Texts are bytes, and
-- `strings.TrimSpace` treats the bytes below 128; a byte from 128 on is no name character, as the
-- runes from 128 on.
pub mod Sanitize
pub mod Template
pub mod Context
pub mod Render
pub mod Safe
pub mod Tokens
pub mod Levels
mod Examples
