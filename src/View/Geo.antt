-- ===== src/View/Geo.antt =====
-- GeoIPReader (view/geoip.py): the grammar of geo tokens, and the lookup.
use powergslb.Base.{
  Option, none, some, Bool, if◌then◌else◌, any, Text, codes, text_eq, Result, ok, err, value_error,
  List, Error, attribute_error, ◌≡◌, refl,
}
use powergslb.Client.{IpAddress, ClientGeo, unknown_geo}
use powergslb.View.Codes.{continent_codes, country_codes}
use powergslb.View.Split.{partition}

pub data GeoKind : Type 0 where
  country continent : GeoKind

abbrev pub GeoToken : Type 0
GeoToken = GeoKind × Text

-- `str.lower` and `str.upper`.
pub record Casing : Type 0 where
  pub lower : Text → Text
  pub upper : Text → Text

-- `value in CODES`
abbrev pub is_code : List Text → Text → Bool
is_code known value = any (text_eq value) known

module _ (casing : Casing) where
  open casing use {lower, upper}

  abbrev checked : GeoKind → List Text → Text → Result (Option GeoToken)
  checked kind known value =
      if is_code known value then ok (some (kind, value)) else err value_error

  abbrev parse_parts : Option (Text × Text) → Result (Option GeoToken)
  parse_parts none = ok none
  parse_parts (some (prefix, value)) =
      if text_eq (lower prefix) (codes "country")
      then checked country country_codes (upper value)
      else if text_eq (lower prefix) (codes "continent")
      then checked continent continent_codes (upper value)
      else ok none

  -- `parse_geo_token`
  unfoldable pub parse_geo_token : Text → Result (Option GeoToken)
  unfolding partition
  parse_geo_token token = parse_parts (partition b':' token)

-- A reply of `maxminddb`'s `get` that `lookup` handles: a `ValueError`, something that is no dict, or the
-- record, with its `iso_code` and `code` where it has them. `RawReply` has the others.
pub data GeoReply : Type 0 where
  invalid : GeoReply
  not_dict : GeoReply
  found : Option Text → Option Text → GeoReply

-- The open database, if any.
abbrev pub GeoReader : Type 0
GeoReader = Option (IpAddress → GeoReply)

abbrev geo_of_reply : GeoReply → ClientGeo
geo_of_reply invalid = unknown_geo
geo_of_reply not_dict = unknown_geo
geo_of_reply (found iso_code code) = record { country = iso_code; continent = code }

-- `GeoIPReader.lookup`, where each read of the database is handled; `raw_lookup` is for all reads.
unfoldable pub lookup : GeoReader → IpAddress → ClientGeo
lookup none ip = unknown_geo
lookup (some get) ip = geo_of_reply (get ip)

-- All that a read of the database may come to: a reply; another exception than a `ValueError`, as
-- `maxminddb.InvalidDatabaseError` is; or a record whose `country` or `continent` is no dict.
pub data RawReply : Type 0 where
  replied : GeoReply → RawReply
  failed : Error → RawReply
  malformed : RawReply

abbrev geo_of_raw : RawReply → Result ClientGeo
geo_of_raw (replied reply) = ok (geo_of_reply reply)
geo_of_raw (failed e) = err e
geo_of_raw malformed = err attribute_error

-- `GeoIPReader.lookup`, with the exceptions that it lets through.
unfoldable pub raw_lookup : Option (IpAddress → RawReply) → IpAddress → Result ClientGeo
raw_lookup none ip = ok unknown_geo
raw_lookup (some get) ip = geo_of_raw (get ip)

-- No read of the database, for any address, lets an exception through.
abbrev pub IsReplied : RawReply → Type 0
IsReplied (replied reply) = Unit
IsReplied (failed e) = ⊥
IsReplied malformed = ⊥

abbrev pub AlwaysReplies : Option (IpAddress → RawReply) → Type 0
AlwaysReplies none = Unit
AlwaysReplies (some get) = (ip : IpAddress) → IsReplied (get ip)

abbrev reply_of : (raw : RawReply) → IsReplied raw → GeoReply
reply_of (replied reply) h = reply
reply_of (failed e) h = absurd h
reply_of malformed h = absurd h

-- The reader of such a database.
abbrev pub reader_of : (raw : Option (IpAddress → RawReply)) → AlwaysReplies raw → GeoReader
reader_of none h = none
reader_of (some get) h = some (λ ip. reply_of (get ip) (h ip))

replied-eq :
    (raw : RawReply) (h : IsReplied raw) → geo_of_raw raw ≡ ok (geo_of_reply (reply_of raw h))
replied-eq (replied reply) h = refl
replied-eq (failed e) h = absurd h
replied-eq malformed h = absurd h

-- Its lookup is that of the database.
pub raw_lookup-reader_of :
    (raw : Option (IpAddress → RawReply)) (h : AlwaysReplies raw) (ip : IpAddress)
    → raw_lookup raw ip ≡ ok (lookup (reader_of raw h) ip)
unfolding raw_lookup lookup
raw_lookup-reader_of none h ip = refl
raw_lookup-reader_of (some get) h ip = replied-eq (get ip) (h ip)
