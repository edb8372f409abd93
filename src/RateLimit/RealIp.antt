-- ===== src/RateLimit/RealIp.antt =====
-- ratelimit/realip.go: the client's address behind trusted proxies. The functions of net and strings are
-- the fields of `NetLib`.
pub mod Forwarded
pub mod Spoofing
use Prim.Native.Char.{Char, code}
use go_libs.Common.{
  ℕ, Bool, true, false, ◌&&◌, ◌||◌, not, ◌==◌, Option, none, some, String, List, [], ◌∷◌, ◌++◌,
  if◌then◌else◌, str_eq, reverse,
}

-- `Ip` is net.IP and `Net` is *net.IPNet without nil. `trim_brackets` is `strings.Trim(s, "[]")` and `split_commas`
-- is `strings.Split(s, ",")`; the others have the names of their functions, and an error is `none`.
pub record NetLib (Ip Net : Type 0) : Type 0 where
  pub trim_spaces : String → String
  pub trim_brackets : String → String
  pub split_commas : String → List String
  pub has_slash : String → Bool
  pub concat : String → String → String
  pub split_host_port : String → Option String
  pub parse_ip : String → Option Ip
  pub ip_string : Ip → String
  pub is_v4 : Ip → Bool
  pub parse_cidr : String → Option Net
  pub net_contains : Net → Ip → Bool

-- What is read of an http.Request: `header` is `Header.Values`.
pub record HttpRequest : Type 0 where
  pub remote_addr : String
  pub header : String → List String

-- `Header.Get`.
abbrev pub get_header : HttpRequest → String → String
get_header r k = elim (r.header k) [ [] ↦ "" | v ∷ vs ↦ v ]

abbrev pub is_space : Char → Bool
is_space c = code c == 32 || code c == 9 || code c == 13 || code c == 10

-- The two loops of `trimSpace`.
unfoldable pub trim_start : String → String
trim_start String.[] = ""
trim_start (String.◌∷◌ c s) = let rest = trim_start s in if is_space c then rest else String.◌∷◌ c s

unfoldable pub trim_end : String → String
trim_end String.[] = ""
trim_end (String.◌∷◌ c s) =
    let rest = trim_end s in if is_space c && str_eq rest "" then "" else String.◌∷◌ c rest

unfoldable pub trim_space : String → String
trim_space s = trim_end (trim_start s)

-- The inner loop of `parseXFF`, over the parts of one value.
unfoldable pub trimmed_parts : List String → List String
trimmed_parts [] = []
trimmed_parts (p ∷ ps) =
    let rest = trimmed_parts ps in
    let trimmed = trim_space p in if str_eq trimmed "" then rest else trimmed ∷ rest

module _ {Ip Net : Type 0} (lib : NetLib Ip Net) where
  unfoldable pub extract_ip : String → String
  extract_ip remote_addr =
      let addr = lib.trim_spaces remote_addr in
      if str_eq addr ""
      then ""
      else lib.trim_brackets (elim (lib.split_host_port addr) [ some host ↦ host | none ↦ addr ])

  -- A nil network is `none`.
  unfoldable pub is_trusted : Ip → List (Option Net) → Bool
  is_trusted ip [] = false
  is_trusted ip (none ∷ nets) = is_trusted ip nets
  is_trusted ip (some n ∷ nets) =
      let rest = is_trusted ip nets in if lib.net_contains n ip then true else rest

  -- Its outer loop, over the values.
  unfoldable pub forwarded_parts : List String → List String
  forwarded_parts [] = []
  forwarded_parts (h ∷ hs) = trimmed_parts (lib.split_commas h) ++ forwarded_parts hs

  -- The loop that goes back from the last part; the parts stand in that order.
  unfoldable pub scan_back : List (Option Net) → List String → String → String
  scan_back trusted [] leftmost_valid = leftmost_valid
  scan_back trusted (p ∷ ps) leftmost_valid = elim (lib.parse_ip (extract_ip p)) [
    | none ↦ scan_back trusted ps leftmost_valid
    | some ip ↦
        let rest = scan_back trusted ps (lib.ip_string ip) in
        if not (is_trusted ip trusted) then lib.ip_string ip else rest
  ]

  unfoldable pub parse_xff : HttpRequest → List (Option Net) → String
  parse_xff r trusted =
      scan_back trusted (reverse (forwarded_parts (r.header "X-Forwarded-For"))) ""

  -- The end of `RealIP`: `X-Real-IP`, or else the peer.
  unfoldable pub fall_back : HttpRequest → String → String
  fall_back r remote_ip =
      let xri = get_header r "X-Real-IP" in
      if str_eq xri "" then remote_ip else elim (lib.parse_ip (extract_ip (trim_space xri))) [
        | some ip ↦ lib.ip_string ip
        | none ↦ remote_ip
      ]

  -- The direct connection is trusted.
  unfoldable pub behind_proxy : HttpRequest → List (Option Net) → String → String
  behind_proxy r trusted remote_ip =
      let ip = parse_xff r trusted in if str_eq ip "" then fall_back r remote_ip else ip

  -- A nil request is `none`.
  unfoldable pub real_ip : Option HttpRequest → List (Option Net) → String
  real_ip none trusted = ""
  real_ip (some r) [] = extract_ip r.remote_addr
  real_ip (some r) (n ∷ ns) =
      let remote_ip = extract_ip r.remote_addr in
      elim (lib.parse_ip remote_ip) [
        | none ↦ remote_ip
        | some direct_ip ↦
            if not (is_trusted direct_ip (n ∷ ns))
            then remote_ip
            else behind_proxy r (n ∷ ns) remote_ip
      ]

  unfoldable pub parse_cidr_or_ip : String → Option Net
  parse_cidr_or_ip raw =
      let s = lib.trim_spaces raw in
      if str_eq s ""
      then none
      else if lib.has_slash s
      then lib.parse_cidr s
      else elim (lib.parse_ip s) [
        | none ↦ none
        | some ip ↦ lib.parse_cidr (lib.concat s (if lib.is_v4 ip then "/32" else "/128"))
      ]

  -- The inner loop of `ParseTrustedProxies`, and the outer one.
  unfoldable pub parse_pieces : List String → List (Option Net)
  parse_pieces [] = []
  parse_pieces (raw ∷ cs) =
      let rest = parse_pieces cs in
      let c = lib.trim_spaces raw in
      if str_eq c ""
      then rest
      else elim (parse_cidr_or_ip c) [ some n ↦ some n ∷ rest | none ↦ rest ]

  unfoldable pub parse_trusted_proxies : List String → List (Option Net)
  parse_trusted_proxies [] = []
  parse_trusted_proxies (raw ∷ cidrs) =
      parse_pieces (lib.split_commas raw) ++ parse_trusted_proxies cidrs

  unfoldable pub real_ip_with_proxies : Option HttpRequest → List String → String
  real_ip_with_proxies r trusted_cidrs = real_ip r (parse_trusted_proxies trusted_cidrs)
