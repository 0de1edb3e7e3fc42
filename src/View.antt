-- ===== src/View.antt =====
-- View rules (view/rule.py) and the geo tokens in them (view/geoip.py). What the code takes from
-- netaddr, from the GeoIP database and from Python's case mappings is a parameter.
mod Codes
mod Split
mod Geo
mod Rule
pub mod Matching
pub mod Resolving
pub mod Accepting
unfoldable pub use Codes.{country_codes, continent_codes}
unfoldable pub use Split.{is_space, split, partition}
unfoldable pub use Geo.*
unfoldable pub use Rule.*
