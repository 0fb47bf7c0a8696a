-- ===== src/Auth/Proxy.antt =====
-- backend/src/admin_auth.rs: the address of a client behind proxies (`resolved_client_ip`,
-- `is_trusted_proxy`, `single_ip_header`, `forwarded_for_client_ip`).
use Prim.Native.String.{String}
use operation_monitoring.Base.{
  Bool, true, false, ◌||◌, not, Option, none, some, unwrap_or, List, [], ◌∷◌, ◌++◌, if◌then◌else◌,
  any,
}

-- Headers and addresses, of the standard library and of the crates `http` and `ipnet`: addresses and
-- networks, the text of a header value, its parts between commas from the right, the space around a
-- part taken off, and the address that a part is.
pub record Addresses : Type 1 where
  pub Ip : Type 0
  pub Network : Type 0
  pub HeaderValue : Type 0
  pub contains : Network → Ip → Bool
  pub to_str : HeaderValue → Option String
  pub rsplit_commas : String → List String
  pub trim : String → String
  pub parse_ip : String → Option Ip

module _ (w : Addresses) where
  pub record HeaderMap : Type 0 where
    pub x_forwarded_for : List w.HeaderValue
    pub x_real_ip : List w.HeaderValue

  pub data ForwardedForResult : Type 0 where
    missing : ForwardedForResult
    resolved : w.Ip → ForwardedForResult
    invalid : ForwardedForResult

  -- Where the loops stand: at a client so far, and whether a hop was read; or at a result.
  pub data Walk : Type 0 where
    at : w.Ip → Bool → Walk
    over : ForwardedForResult → Walk

  unfoldable pub is_trusted_proxy : w.Ip → List w.Network → Bool
  is_trusted_proxy ip networks = any (λ n. w.contains n ip) networks

  abbrev parsed : String → Option w.Ip
  parsed part = w.parse_ip (w.trim part)

  abbrev moved : Option w.Ip → Walk
  moved none = over invalid
  moved (some ip) = at ip true

  -- The inner loop, over the parts of one value.
  unfoldable pub walk_parts : List w.Network → Walk → List String → Walk
  walk_parts networks (over r) parts = over r
  walk_parts networks (at ip found) [] = at ip found
  walk_parts networks (at ip found) (part ∷ rest) =
      let next = walk_parts networks (moved (parsed part)) rest in
      if is_trusted_proxy ip networks then next else over (resolved ip)

  abbrev pub parts_of : List w.Network → w.Ip → Bool → Option String → Walk
  parts_of networks ip found none = over invalid
  parts_of networks ip found (some text) = walk_parts networks (at ip found) (w.rsplit_commas text)

  -- The outer loop, over the values from the last to the first.
  unfoldable pub walk_values : List w.Network → Walk → List w.HeaderValue → Walk
  unfolding walk_parts
  walk_values networks (over r) values = over r
  walk_values networks (at ip found) [] = at ip found
  walk_values networks (at ip found) (value ∷ rest) =
      walk_values networks (parts_of networks ip found (w.to_str value)) rest

  abbrev pub forwarded_result : Walk → ForwardedForResult
  forwarded_result (over r) = r
  forwarded_result (at ip true) = resolved ip
  forwarded_result (at ip false) = missing

  abbrev pub reverse : List w.HeaderValue → List w.HeaderValue
  reverse [] = []
  reverse (x ∷ xs) = reverse xs ++ x ∷ []

  unfoldable pub forwarded_for_client_ip : HeaderMap → w.Ip → List w.Network → ForwardedForResult
  unfolding walk_values
  forwarded_for_client_ip headers peer_ip networks =
      forwarded_result (walk_values networks (at peer_ip false) (reverse headers.x_forwarded_for))

  abbrev text_ip : Option String → Option w.Ip
  text_ip none = none
  text_ip (some text) = parsed text

  unfoldable pub single_ip_header : List w.HeaderValue → Option w.Ip
  single_ip_header [] = none
  single_ip_header (value ∷ []) = text_ip (w.to_str value)
  single_ip_header (value ∷ other ∷ rest) = none

  abbrev pub after_forwarded : HeaderMap → w.Ip → ForwardedForResult → w.Ip
  after_forwarded headers peer_ip (resolved ip) = ip
  after_forwarded headers peer_ip missing = unwrap_or (single_ip_header headers.x_real_ip) peer_ip
  after_forwarded headers peer_ip invalid = peer_ip

  unfoldable pub resolved_client_ip : Bool → List w.Network → HeaderMap → w.Ip → w.Ip
  unfolding is_trusted_proxy single_ip_header forwarded_for_client_ip
  resolved_client_ip trust_proxy_headers networks headers peer_ip =
      if not trust_proxy_headers || not (is_trusted_proxy peer_ip networks)
      then peer_ip
      else after_forwarded headers peer_ip (forwarded_for_client_ip headers peer_ip networks)
