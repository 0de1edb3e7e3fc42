-- ===== src/Client.antt =====
-- Per-request client data (client/context.py, client/geo.py), and what the code reads of netaddr's
-- addresses and networks.
use powergslb.Base.{ℕ, Option, none, Text}

-- `IPAddress.version`
pub data Version : Type 0 where
  v4 v6 : Version

pub Version-discrete : Discrete Version
Version-discrete = hlevel

-- `netaddr.IPAddress`
pub record IpAddress : Type 0 where
  pub version : Version
  pub value : ℕ

-- `netaddr.IPNetwork`
pub record IpNetwork : Type 0 where
  pub ip : IpAddress
  pub prefixlen : ℕ

pub record ClientGeo : Type 0 where
  pub country : Option Text
  pub continent : Option Text

-- `ClientGeo()`
abbrev pub unknown_geo : ClientGeo
unknown_geo = record { country = none; continent = none }

pub record ClientContext : Type 0 where
  pub geo : Option ClientGeo
  pub ip : IpAddress
  pub prefixlen : ℕ

-- `ClientContext(remote)`
unfoldable pub client_context : IpNetwork → ClientContext
client_context remote = record { geo = none; ip = remote.ip; prefixlen = remote.prefixlen }
