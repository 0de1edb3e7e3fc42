-- ===== src/Routing/Sticky.antt =====
-- sticky-hash (routing/sticky_hash.py). `hashlib.blake2b` with a digest of 16 bytes is a parameter.
pub mod Network
pub mod Buffer
pub mod Ranking
pub mod Stickiness
use powergslb.Base.{
  ℕ, ◌-◌, ◌*◌, ◌/◌, ◌^◌, ◌≡◌, Bool, true, false, List, [], ◌∷◌, ◌++◌, map, ltb, ◌==◌, if◌then◌else◌,
  length, take, is_empty, Text, text_leb, Result, ok, err, ◌>>=◌, value_error,
}
use powergslb.Base.Bytes.{Bytes, to_bytes, from_bytes, encode}
use powergslb.Base.Sort.{sort, by_key}
use powergslb.Client.{Version, v4, v6, IpAddress, ClientContext}
use powergslb.Row.{Row}
use powergslb.Routing.Tiers.{highest_tier}

-- The address width in bits.
abbrev pub width : Version → ℕ
width v4 = 32
width v6 = 128

-- The prefix length for an address family.
abbrev pub family_prefix : Version → ℕ → ℕ → ℕ
family_prefix v4 ipv4_prefix ipv6_prefix = ipv4_prefix
family_prefix v6 ipv4_prefix ipv6_prefix = ipv6_prefix

-- `(value >> host_bits) << host_bits`
abbrev pub clear_low_bits : ℕ → ℕ → ℕ
clear_low_bits value host_bits = value / 2 ^ host_bits * 2 ^ host_bits

-- `_masked_network`; a shift by a negative count raises a `ValueError`.
unfoldable pub masked_network : IpAddress → ℕ → ℕ → Result Bytes
unfolding to_bytes
masked_network ip ipv4_prefix ipv6_prefix =
    let prefix = family_prefix ip.version ipv4_prefix ipv6_prefix in
    let host_bits = width ip.version - prefix in
    if ltb (width ip.version) prefix
    then err value_error
    else to_bytes (width ip.version / 8) (clear_low_bits ip.value host_bits)

-- The length-prefixed buffer that `_stable_hash` digests.
unfoldable pub hash_buffer : Bytes → Bytes → Result Bytes
unfolding to_bytes
hash_buffer network content_bytes = do
  network_length ← to_bytes 2 (length network)
  content_length ← to_bytes 4 (length content_bytes)
  ok (network_length ++ (network ++ (content_length ++ content_bytes)))

-- What records are ranked by: `(hash, content)`.
abbrev pub Key : Type 0
Key = ℕ × Text

-- `a <= b` on tuples
abbrev pub key_leb : Key → Key → Bool
key_leb (h, s) (k, t) = if ltb h k then true else if h == k then text_leb s t else false

-- `reverse=True`
abbrev pub key_geb : Key → Key → Bool
key_geb a b = key_leb b a

abbrev pub Ranked : Type 0
Ranked = ℕ × Row

abbrev pub rank_key : Ranked → Key
rank_key (h, r) = (h, r.content)

module _ (blake2b : Bytes → Bytes) where
  -- `_stable_hash`
  unfoldable pub stable_hash : Bytes → Text → Result ℕ
  unfolding hash_buffer encode from_bytes
  stable_hash network content = do
    content_bytes ← encode content
    buffer ← hash_buffer network content_bytes
    ok (from_bytes (blake2b buffer))

  -- The keys that `sorted` computes before it sorts.
  unfoldable pub ranks : Bytes → List Row → Result (List Ranked)
  unfolding stable_hash
  ranks network [] = ok []
  ranks network (r ∷ rows) = do
    h ← stable_hash network r.content
    rest ← ranks network rows
    ok ((h, r) ∷ rest)

  -- `_sticky_pick`
  unfoldable pub sticky_pick : List Row → Bytes → ℕ → Result (List Row)
  unfolding ranks sort
  sticky_pick candidates network count = do
    ranked ← ranks network candidates
    ok (take count (map (λ p. p.1) (sort (by_key rank_key key_geb) ranked)))

  -- `StickyHash.select`
  unfoldable pub sticky_select : ℕ → ℕ → ℕ → List Row → ClientContext → Result (List Row)
  unfolding highest_tier masked_network sticky_pick
  sticky_select max_answers ipv4_prefix ipv6_prefix candidates context =
      let tier = highest_tier candidates in
      let picked = (do
        network ← masked_network context.ip ipv4_prefix ipv6_prefix
        sticky_pick tier network max_answers) in
      if is_empty tier then ok [] else picked

-- `StickyHash.network_prefix`
unfoldable pub sticky_prefix : ℕ → ℕ → ClientContext → ℕ
sticky_prefix ipv4_prefix ipv6_prefix context =
    family_prefix context.ip.version ipv4_prefix ipv6_prefix
