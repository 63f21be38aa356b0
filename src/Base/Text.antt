-- ===== src/Base/Text.antt =====
-- Text as the list of its code points, with the `str` methods that the code calls: `==`, `trim`,
-- `split`, `strip_prefix`, `starts_with`, `contains`, `len`, `to_ascii_lowercase` and `parse`.
mod Defs
mod Trim
mod Split
mod Prefix
mod Digits
unfoldable pub use Defs.*
unfoldable pub use Trim.*
unfoldable pub use Split.*
unfoldable pub use Prefix.*
unfoldable pub use Digits.*
