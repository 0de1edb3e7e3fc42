-- ===== src/Server/PowerDns/Lookup.antt =====
-- The replies of PowerDNSRequestHandler (server/http/handler/powerdns.py): `_get_lookup`,
-- `_get_all_domains`, `content` and `_set_remote_ip`. The rows are what the database returned.
use powergslb.Base.{
  ℕ, Bool, List, [], ◌∷◌, ◌++◌, map, Option, none, some, if◌then◌else◌, Text, codes, text_eq,
  Result, ok, ◌>>=◌,
}
use powergslb.Base.Dict.{Dict, get, text_key}
use powergslb.Base.Values.{ℤ}
use powergslb.Client.{IpAddress, IpNetwork, ClientContext, client_context}
use powergslb.Numerals.{parse_int}
use powergslb.Row.{Row}
use powergslb.Server.PowerDns.{Setting, Chance, select_records, scope_prefix}
use powergslb.View.{split}
use mathlib.Core.Option

-- One answer of a lookup.
pub record Answer : Type 0 where
  pub qname : Text
  pub qtype : Text
  pub content : Text
  pub ttl : ℕ
  pub scope_mask : ℕ

abbrev pub answer : ℕ → Row → Answer
answer scope r = record {
  qname = r.qname;
  qtype = r.qtype;
  content = r.content;
  ttl = r.ttl;
  scope_mask = scope;
}

-- `all_records[record['qtype']].append(record)` on the `defaultdict`.
unfoldable pub append : Text → Row → Dict Text (List Row) → Dict Text (List Row)
append qtype r [] = (qtype, r ∷ []) ∷ []
append qtype r ((key, group) ∷ groups) =
    if text_eq key qtype
    then (key, group ++ r ∷ []) ∷ groups
    else (key, group) ∷ append qtype r groups

-- The loop that keys the records by type.
unfoldable pub group_by_qtype : Dict Text (List Row) → List Row → Dict Text (List Row)
unfolding append
group_by_qtype groups [] = groups
group_by_qtype groups (r ∷ records) = group_by_qtype (append r.qtype r groups) records

-- `all_records[qtype]`: a missing key has the empty list.
abbrev pub group_of : Option (List Row) → List Row
group_of none = []
group_of (some group) = group

module _ (setting : Setting) where
  -- The loop over `selected_records`.
  unfoldable pub shape :
      Dict Text (List Row) → ClientContext → Dict Text (List Row) → Result (List Answer)
  unfolding scope_prefix get
  shape all_records context [] = ok []
  shape all_records context ((qtype, group) ∷ selected) = do
    scope ← scope_prefix setting (group_of (get qtype all_records)) context
    rest ← shape all_records context selected
    ok (map (answer scope) group ++ rest)

  -- `_get_lookup`
  unfoldable pub get_lookup : Chance → List Row → ClientContext → Result (List Answer)
  unfolding group_by_qtype select_records shape
  get_lookup chance records context = do
    let all_records = group_by_qtype [] records
    (selected, after) ← select_records setting chance all_records context
    shape all_records after selected

-- A row of `gslb_domains`.
pub record Domain : Type 0 where
  pub id : ℕ
  pub domain : Text
  pub soa_content : Text

-- One zone of getAllDomains; `kind` and `masters` are constants.
pub record Zone : Type 0 where
  pub id : ℕ
  pub zone : Text
  pub serial : ℤ
  pub notified_serial : ℤ
  pub last_check : ℕ

-- `int(domain['soa_content'].split()[2])`
abbrev pub third : List Text → Option ℤ
third (a ∷ b ∷ c ∷ rest) = parse_int c
third _ = none

unfoldable pub soa_serial : Domain → Option ℤ
unfolding parse_int
soa_serial d = third (split d.soa_content)

abbrev zone_of : ℕ → Domain → ℤ → Zone
zone_of now d serial = record {
  id = d.id;
  zone = d.domain ++ codes ".";
  serial = serial;
  notified_serial = serial;
  last_check = now;
}

abbrev pub add_zone : ℕ → Domain → Option ℤ → List Zone → List Zone
add_zone now d none zones = zones
add_zone now d (some serial) zones = zone_of now d serial ∷ zones

-- `_get_all_domains`, on the rows of the database, at the time `now`.
unfoldable pub get_all_domains : ℕ → List Domain → List Zone
unfolding soa_serial
get_all_domains now [] = []
get_all_domains now (d ∷ domains) = add_zone now d (soa_serial d) (get_all_domains now domains)

-- `{'result': ...}`
pub data Reply : Type 0 where
  lookup_reply : List Answer → Reply
  domains_reply : List Zone → Reply
  false_reply : Reply

-- The database, for `gslb_records(qname, qtype)` and `gslb_domains(include_disabled)`.
pub record Database : Type 0 where
  pub gslb_records : Text → Text → List Row
  pub gslb_domains : Bool → List Domain

abbrev as_lookup : Result (List Answer) → Result Reply
as_lookup r = do answers ← r; ok (lookup_reply answers)

-- `content`, by `dirs`; `include_disabled` is what the query string asks for.
unfoldable pub content :
    Setting → Database → Chance → ℕ → Bool → List Text → ClientContext → Result Reply
unfolding get_lookup get_all_domains
content setting database chance now include_disabled (root ∷ action ∷ qname ∷ qtype ∷ []) context =
    let found = as_lookup (get_lookup setting chance (database.gslb_records qname qtype) context) in
    if text_eq action (codes "lookup") then found else ok false_reply
content setting database chance now include_disabled (root ∷ action ∷ []) context =
    let zones = get_all_domains now (database.gslb_domains include_disabled) in
    if text_eq action (codes "getAllDomains") then ok (domains_reply zones) else ok false_reply
content setting database chance now include_disabled dirs context = ok false_reply

-- `_handle_route`: `none` is the 404 of any other method.
unfoldable pub handle_route : Text → Result Reply → Option (Result Reply)
handle_route command reply = if text_eq command (codes "GET") then some reply else none

-- netaddr: `IPAddress(text)` and `IPNetwork(text)`, `none` where they raise a caught error.
pub record Parsers : Type 0 where
  pub parse_address : Text → Option IpAddress
  pub parse_network : Text → Option IpNetwork

abbrev with_default : Option Text → Text → Text
with_default none default = default
with_default (some header) default = header

-- The `except` clauses: the TCP peer instead; what raises there is not caught.
abbrev or_peer {ℓ} : {A : Type ℓ} → Option A → Option A → Option A
or_peer none peer = peer
or_peer (some a) peer = some a

-- `_set_remote_ip`, from the two headers and the address of the TCP peer.
unfoldable pub set_remote_ip :
    Parsers → Text → Option Text → Option Text → Option (IpAddress × ClientContext)
unfolding client_context
set_remote_ip netaddr client_ip remote real_remote =
    elim (or_peer (netaddr.parse_address (with_default remote client_ip))
      (netaddr.parse_address client_ip)) [
        | none ↦ none
        | some ip ↦
            Option.map (λ network. (ip, client_context network))
              (or_peer (netaddr.parse_network (with_default real_remote client_ip))
                (netaddr.parse_network client_ip))
      ]
