-- ===== src/Auth/Hops.antt =====
-- backend/src/admin_auth.rs: what a client can put into its headers does not move its address.
use Prim.Native.String.{String}
use operation_monitoring.Base.{
  ◌≡◌, ◌∙◌, refl, sym, ap, Bool, true, false, ◌||◌, not, none, some, List, [], ◌∷◌, ◌++◌,
  if◌then◌else◌, if-holds, All, All-append,
}
use operation_monitoring.Auth.Proxy.{
  Addresses, ForwardedForResult, missing, resolved, invalid, Walk, at, over, is_trusted_proxy,
  walk_parts, parts_of, walk_values, forwarded_result, reverse, forwarded_for_client_ip,
  after_forwarded, resolved_client_ip,
}

module _ (w : Addresses) (networks : List w.Network) where
  -- A value that is a text; a text has at least one part.
  abbrev pub IsReadable : w.HeaderValue → Type 0
  IsReadable value =
      (text : String) × (part : String) × (rest : List String) × (w.to_str value ≡ some text)
      × (w.rsplit_commas text ≡ part ∷ rest)

  -- The walk is over, or stands at an address that is no trusted proxy.
  abbrev pub IsSettled : Walk w → Type 0
  IsSettled (over r) = Unit
  IsSettled (at ip found) = (found ≡ true) × (is_trusted_proxy w ip networks ≡ false)

  append_assoc : (xs ys zs : List w.HeaderValue) → (xs ++ ys) ++ zs ≡ xs ++ (ys ++ zs)
  append_assoc [] ys zs = refl
  append_assoc (x ∷ xs) ys zs = ap (◌∷◌ x) (append_assoc xs ys zs)

  append_nil : (xs : List w.HeaderValue) → xs ++ [] ≡ xs
  append_nil [] = refl
  append_nil (x ∷ xs) = ap (◌∷◌ x) (append_nil xs)

  reverse-append :
      (xs ys : List w.HeaderValue) → reverse w (xs ++ ys) ≡ reverse w ys ++ reverse w xs
  reverse-append [] ys = sym (append_nil (reverse w ys))
  reverse-append (x ∷ xs) ys =
      ap (λ l. l ++ x ∷ []) (reverse-append xs ys)
      ∙ append_assoc (reverse w ys) (reverse w xs) (x ∷ [])

  All-reverse :
      (values : List w.HeaderValue) → All IsReadable values → All IsReadable (reverse w values)
  All-reverse [] h = tt
  All-reverse (x ∷ xs) h =
      All-append IsReadable (reverse w xs) (x ∷ []) (All-reverse xs h.1) (h.0, tt)

  over_for_good :
      (r : ForwardedForResult w) (values : List w.HeaderValue)
      → walk_values w networks (over r) values ≡ over r
  unfolding walk_values
  over_for_good r [] = refl
  over_for_good r (value ∷ rest) = refl

  walk_values-append :
      (s : Walk w) (xs ys : List w.HeaderValue)
      → walk_values w networks s (xs ++ ys)
        ≡ walk_values w networks (walk_values w networks s xs) ys
  unfolding walk_values
  walk_values-append (over r) [] ys = refl
  walk_values-append (over r) (x ∷ xs) ys = sym (over_for_good r ys)
  walk_values-append (at ip found) [] ys = refl
  walk_values-append (at ip found) (x ∷ xs) ys =
      walk_values-append (parts_of w networks ip found (w.to_str x)) xs ys

  parts_settle :
      (ip : w.Ip) (found : Bool) (value : w.HeaderValue) (text part : String) (rest : List String)
      → w.to_str value ≡ some text
      → w.rsplit_commas text ≡ part ∷ rest
      → is_trusted_proxy w ip networks ≡ false
      → parts_of w networks ip found (w.to_str value) ≡ over (resolved ip)
  unfolding walk_parts
  parts_settle ip found value text part rest is_text parts untrusted =
      ap (parts_of w networks ip found) is_text
      ∙ (ap (walk_parts w networks (at ip found)) parts ∙ rw untrusted refl)

  settled_result :
      (s : Walk w) (values : List w.HeaderValue)
      → IsSettled s
      → All IsReadable values
      → forwarded_result w (walk_values w networks s values) ≡ forwarded_result w s
  unfolding walk_values walk_parts
  settled_result (over r) values settled h = ap (forwarded_result w) (over_for_good r values)
  settled_result (at ip found) [] settled h = refl
  settled_result (at ip found) (value ∷ more) (read, untrusted)
        ((text, part, rest, is_text, parts), h) =
      ap (λ s. forwarded_result w (walk_values w networks s more))
        (parts_settle ip found value text part rest is_text parts untrusted)
      ∙ (ap (forwarded_result w) (over_for_good (resolved ip) more)
          ∙ sym (ap (λ f. forwarded_result w (at ip f)) read))

  same_forwarded :
      (peer_ip : w.Ip) (values extra x_real_ip : List w.HeaderValue)
      → IsSettled (walk_values w networks (at peer_ip false) (reverse w values))
      → All IsReadable extra
      → forwarded_for_client_ip w
          (record { x_forwarded_for = extra ++ values; x_real_ip = x_real_ip })
          peer_ip
          networks
        ≡ forwarded_for_client_ip w
            (record { x_forwarded_for = values; x_real_ip = x_real_ip })
            peer_ip
            networks
  unfolding forwarded_for_client_ip
  same_forwarded peer_ip values extra x_real_ip settled readable =
      ap (λ l. forwarded_result w (walk_values w networks (at peer_ip false) l))
        (reverse-append extra values)
      ∙ (ap (forwarded_result w)
            (walk_values-append (at peer_ip false) (reverse w values) (reverse w extra))
          ∙ settled_result (walk_values w networks (at peer_ip false) (reverse w values))
              (reverse w extra) settled (All-reverse extra readable))

  same_address :
      (values extra x_real_ip : List w.HeaderValue) (peer_ip : w.Ip) (r : ForwardedForResult w)
      → after_forwarded w
          (record { x_forwarded_for = extra ++ values; x_real_ip = x_real_ip })
          peer_ip
          r
        ≡ after_forwarded w (record { x_forwarded_for = values; x_real_ip = x_real_ip }) peer_ip r
  same_address values extra x_real_ip peer_ip missing = refl
  same_address values extra x_real_ip peer_ip (resolved ip) = refl
  same_address values extra x_real_ip peer_ip invalid = refl

  -- When the values that a request has settle on an address that is no trusted proxy, or on an earlier
  -- result, readable values to their left change nothing: the client has the same address with any of
  -- them.
  pub left_values_ignored :
      (trust : Bool) (peer_ip : w.Ip) (x_forwarded_for extra x_real_ip : List w.HeaderValue)
      → IsSettled (walk_values w networks (at peer_ip false) (reverse w x_forwarded_for))
      → All IsReadable extra
      → resolved_client_ip w trust networks
          (record { x_forwarded_for = extra ++ x_forwarded_for; x_real_ip = x_real_ip })
          peer_ip
        ≡ resolved_client_ip w trust networks
            (record { x_forwarded_for = x_forwarded_for; x_real_ip = x_real_ip })
            peer_ip
  unfolding resolved_client_ip
  left_values_ignored trust peer_ip values extra x_real_ip settled readable =
      ap (λ a. if not trust || not (is_trusted_proxy w peer_ip networks) then peer_ip else a)
        (ap
            (after_forwarded w (record { x_forwarded_for = extra ++ values; x_real_ip = x_real_ip })
              peer_ip)
            (same_forwarded peer_ip values extra x_real_ip settled readable)
          ∙ same_address values extra x_real_ip peer_ip (
              forwarded_for_client_ip w (record { x_forwarded_for = values; x_real_ip = x_real_ip })
                peer_ip networks))

  invalid_walk :
      (s : Walk w) (ip : w.Ip) (found : Bool) (value : w.HeaderValue) (left : List w.HeaderValue)
      → w.to_str value ≡ none
      → s ≡ at ip found
      → walk_values w networks s (value ∷ left) ≡ over invalid
  unfolding walk_values
  invalid_walk s ip found value left opaque stands =
      ap (λ t. walk_values w networks t (value ∷ left)) stands
      ∙ (ap (λ o. walk_values w networks (parts_of w networks ip found o) left) opaque
          ∙ over_for_good invalid left)

  invalid_forwarded :
      (peer_ip ip : w.Ip) (found : Bool) (value : w.HeaderValue)
      (values extra x_real_ip : List w.HeaderValue)
      → w.to_str value ≡ none
      → walk_values w networks (at peer_ip false) (reverse w values) ≡ at ip found
      → forwarded_for_client_ip w
          (record { x_forwarded_for = extra ++ (value ∷ values); x_real_ip = x_real_ip })
          peer_ip
          networks
        ≡ invalid
  unfolding forwarded_for_client_ip
  invalid_forwarded peer_ip ip found value values extra x_real_ip opaque stands =
      ap (λ l. forwarded_result w (walk_values w networks (at peer_ip false) l))
        (reverse-append extra (value ∷ values)
          ∙ append_assoc (reverse w values) (value ∷ []) (reverse w extra))
      ∙ ap (forwarded_result w) (
          walk_values-append (at peer_ip false) (reverse w values) (value ∷ reverse w extra)
          ∙ invalid_walk (walk_values w networks (at peer_ip false) (reverse w values)) ip found
              value (reverse w extra) opaque stands)

  -- A value that is no text, to the left of the ones whose walk stands at some address, makes the
  -- address of the trusted peer the address of the client, whatever is to its left.
  pub opaque_left_value_hides_client :
      (peer_ip ip : w.Ip) (found : Bool) (value : w.HeaderValue)
      (x_forwarded_for extra x_real_ip : List w.HeaderValue)
      → w.to_str value ≡ none
      → walk_values w networks (at peer_ip false) (reverse w x_forwarded_for) ≡ at ip found
      → resolved_client_ip w true networks
          (record { x_forwarded_for = extra ++ (value ∷ x_forwarded_for); x_real_ip = x_real_ip })
          peer_ip
        ≡ peer_ip
  unfolding resolved_client_ip
  opaque_left_value_hides_client peer_ip ip found value values extra x_real_ip opaque stands =
      if-holds (λ a. a ≡ peer_ip) (not (is_trusted_proxy w peer_ip networks)) _ _ (λ _. refl)
        (λ _.
          ap
            (after_forwarded w
              (record { x_forwarded_for = extra ++ (value ∷ values); x_real_ip = x_real_ip })
              peer_ip)
            (invalid_forwarded peer_ip ip found value values extra x_real_ip opaque stands))
