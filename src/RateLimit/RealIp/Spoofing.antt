-- ===== src/RateLimit/RealIp/Spoofing.antt =====
-- Header values that a client makes up do not change the address that `RealIP` gives.
use go_libs.Common.{
  ◌≡◌, refl, sym, ap, ◌∙◌, true, false, Option, some, String, List, [], ◌∷◌, ◌++◌, str_eq,
}
use go_libs.RateLimit.RealIp.{
  NetLib, HttpRequest, extract_ip, is_trusted, trimmed_parts, forwarded_parts, parse_xff,
  behind_proxy, real_ip,
}
use go_libs.RateLimit.RealIp.Forwarded.{rightmost_untrusted, chosen_address, parse_xff_lem}

module _ {Ip Net : Type 0} (lib : NetLib Ip Net) (trusted : List (Option Net)) where
  assoc_append : (xs ys zs : List String) → (xs ++ ys) ++ zs ≡ xs ++ (ys ++ zs)
  assoc_append [] ys zs = refl
  assoc_append (x ∷ xs) ys zs = ap (◌∷◌ x) (assoc_append xs ys zs)

  forwarded_parts-append :
      (hs ts : List String)
      → forwarded_parts lib (hs ++ ts) ≡ forwarded_parts lib hs ++ forwarded_parts lib ts
  unfolding forwarded_parts
  forwarded_parts-append [] ts = refl
  forwarded_parts-append (h ∷ hs) ts =
      ap (λ ps. trimmed_parts (lib.split_commas h) ++ ps) (forwarded_parts-append hs ts)
      ∙ sym (
          assoc_append (trimmed_parts (lib.split_commas h)) (forwarded_parts lib hs)
            (forwarded_parts lib ts))

  rightmost_untrusted-append :
      (ps qs : List String) (ip : Ip)
      → rightmost_untrusted lib trusted qs ≡ some ip
      → rightmost_untrusted lib trusted (ps ++ qs) ≡ some ip
  unfolding rightmost_untrusted
  rightmost_untrusted-append [] qs ip e = e
  rightmost_untrusted-append (p ∷ ps) qs ip e =
      rw (rightmost_untrusted-append ps qs ip e, rightmost_untrusted) refl

  chosen_address_found :
      (ps : List String) (d : String) (ip : Ip)
      → rightmost_untrusted lib trusted ps ≡ some ip
      → chosen_address lib trusted ps d ≡ lib.ip_string ip
  unfolding chosen_address
  chosen_address_found ps d ip e = rw (e, chosen_address) refl

  -- Behind a trusted peer.
  peer_trusted :
      (nets : List (Option Net)) (r : HttpRequest) (direct : Ip)
      → lib.parse_ip (extract_ip lib r.remote_addr) ≡ some direct
      → is_trusted lib direct nets ≡ true
      → real_ip lib (some r) nets ≡ behind_proxy lib r nets (extract_ip lib r.remote_addr)
  unfolding real_ip is_trusted
  peer_trusted [] r direct e t = cc
  peer_trusted (n ∷ ns) r direct e t = rw (e, real_ip) (rw t refl)

  -- Behind a trusted peer, if among the values of the forwarding header that the proxies
  -- wrote there is an address outside the trusted networks, and addresses are not written as the empty
  -- text, then the client's address is the rightmost such one, whatever values stand before them.
  pub spoofed_values_ignored :
      (r : HttpRequest) (direct ip : Ip) (spoofed written : List String)
      → lib.parse_ip (extract_ip lib r.remote_addr) ≡ some direct
      → is_trusted lib direct trusted ≡ true
      → r.header "X-Forwarded-For" ≡ spoofed ++ written
      → rightmost_untrusted lib trusted (forwarded_parts lib written) ≡ some ip
      → str_eq (lib.ip_string ip) "" ≡ false
      → real_ip lib (some r) trusted ≡ lib.ip_string ip
  unfolding behind_proxy
  spoofed_values_ignored r direct ip spoofed written e t split found shown =
      let parts : rightmost_untrusted lib trusted (forwarded_parts lib (r.header "X-Forwarded-For"))
          ≡ some ip =
        rw (split, forwarded_parts-append spoofed written)
          (rightmost_untrusted-append (forwarded_parts lib spoofed) (forwarded_parts lib written) ip
            found) in
      let taken : parse_xff lib r trusted ≡ lib.ip_string ip =
        parse_xff_lem lib trusted r ∙ chosen_address_found _ "" ip parts in
      peer_trusted trusted r direct e t ∙ rw (taken, behind_proxy) (rw shown refl)
