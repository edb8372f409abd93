-- ===== src/RateLimit/RealIp/Forwarded.antt =====
-- Which address `RealIP` takes from `X-Forwarded-For`.
use mathlib.Core.List.{reverse-cons}
use go_libs.Common.{
  ◌≡◌, refl, sym, ap, ◌∙◌, Bool, true, false, ◌||◌, Option, none, some, String, List, [], ◌∷◌, ◌++◌,
  if◌then◌else◌, reverse, inl, inr, Bool-cases, Option-cases, arith,
}
use go_libs.RateLimit.RealIp.{
  NetLib, HttpRequest, extract_ip, is_trusted, forwarded_parts, scan_back, parse_xff,
}

module _ {Ip Net : Type 0} (lib : NetLib Ip Net) (trusted : List (Option Net)) where
  -- A part that is an address outside the trusted networks.
  abbrev pub untrusted_part : String → Option Ip
  untrusted_part p = elim (lib.parse_ip (extract_ip lib p)) [
    | none ↦ none
    | some ip ↦ if is_trusted lib ip trusted then none else some ip
  ]

  -- The rightmost address outside the trusted networks.
  unfoldable pub rightmost_untrusted : List String → Option Ip
  rightmost_untrusted [] = none
  rightmost_untrusted (p ∷ ps) = elim (rightmost_untrusted ps) [
    | some ip ↦ some ip
    | none ↦ untrusted_part p
  ]

  -- The leftmost address, in its canonical form.
  unfoldable pub leftmost_address : List String → String → String
  leftmost_address [] d = d
  leftmost_address (p ∷ ps) d = elim (lib.parse_ip (extract_ip lib p)) [
    | none ↦ leftmost_address ps d
    | some ip ↦ lib.ip_string ip
  ]

  -- `scan_back` reads no further than an untrusted address.
  unfoldable stops : List String → Bool
  stops [] = false
  stops (p ∷ ps) = elim (untrusted_part p) [ none ↦ stops ps | some ip ↦ true ]

  scan_back-stops :
      (ps qs : List String) (d : String)
      → stops ps ≡ true
      → scan_back lib trusted (ps ++ qs) d ≡ scan_back lib trusted ps d
  unfolding scan_back stops
  scan_back-stops [] qs d h = cc
  scan_back-stops (p ∷ ps) qs d h = elim (Option-cases (lib.parse_ip (extract_ip lib p))) [
    | inl e ↦ rw (e, scan_back) (scan_back-stops ps qs d (rw (e, stops) at h))
    | inr (ip, e) ↦ elim (Bool-cases (is_trusted lib ip trusted)) [
      | inl t ↦
          rw (e, scan_back)
            (rw t (scan_back-stops ps qs (lib.ip_string ip) (rw (e, stops, t) at h)))
      | inr t ↦ rw (e, scan_back) (rw t refl)
    ]
  ]

  scan_back-append :
      (ps qs : List String) (d : String)
      → stops ps ≡ false
      → scan_back lib trusted (ps ++ qs) d ≡ scan_back lib trusted qs (scan_back lib trusted ps d)
  unfolding scan_back stops
  scan_back-append [] qs d h = refl
  scan_back-append (p ∷ ps) qs d h = elim (Option-cases (lib.parse_ip (extract_ip lib p))) [
    | inl e ↦ rw (e, scan_back) (scan_back-append ps qs d (rw (e, stops) at h))
    | inr (ip, e) ↦ elim (Bool-cases (is_trusted lib ip trusted)) [
      | inl t ↦
          rw (e, scan_back)
            (rw t (scan_back-append ps qs (lib.ip_string ip) (rw (e, stops, t) at h)))
      | inr t ↦ cc (rw (e, stops, t) at h)
    ]
  ]

  abbrev is_some : Option Ip → Bool
  is_some none = false
  is_some (some ip) = true

  stops-append : (ps qs : List String) → stops (ps ++ qs) ≡ (stops ps || stops qs)
  unfolding stops
  stops-append [] qs = refl
  stops-append (p ∷ ps) qs = elim (Option-cases (untrusted_part p)) [
    | inl e ↦ rw (e, stops) (stops-append ps qs)
    | inr (ip, e) ↦ rw (e, stops) refl
  ]

  stops-last :
      (p : String) (ps : List String)
      → stops (reverse (p ∷ ps)) ≡ (stops (reverse ps) || is_some (untrusted_part p))
  unfolding stops
  stops-last p ps =
      ap stops (reverse-cons p ps)
      ∙ stops-append (reverse ps) (p ∷ [])
      ∙ ap (◌||◌ (stops (reverse ps))) (elim (Option-cases (untrusted_part p)) [
        | inl e ↦ rw (e, stops) refl
        | inr (ip, e) ↦ rw (e, stops) refl
      ])

  stops-reverse : (ps : List String) → stops (reverse ps) ≡ is_some (rightmost_untrusted ps)
  unfolding stops rightmost_untrusted
  stops-reverse [] = refl
  stops-reverse (p ∷ ps) = stops-last p ps ∙ elim (Option-cases (rightmost_untrusted ps)) [
    | inl e ↦ rw (stops-reverse ps, e, rightmost_untrusted) refl
    | inr (ip, e) ↦ rw (stops-reverse ps, e, rightmost_untrusted) refl
  ]

  -- What the two searches find, as text.
  unfoldable pub chosen_address : List String → String → String
  chosen_address ps d = elim (rightmost_untrusted ps) [
    | some ip ↦ lib.ip_string ip
    | none ↦ leftmost_address ps d
  ]

  -- Reading one part more, to the left of parts without an untrusted address.
  read_on : String → String → String
  read_on p m = elim (lib.parse_ip (extract_ip lib p)) [ none ↦ m | some ip ↦ lib.ip_string ip ]

  scan_back-read_on : (p m : String) → scan_back lib trusted (p ∷ []) m ≡ read_on p m
  unfolding scan_back read_on
  scan_back-read_on p m = elim (Option-cases (lib.parse_ip (extract_ip lib p))) [
    | inl f ↦ rw (f, scan_back, read_on) refl
    | inr (ip, f) ↦ rw (f, scan_back, read_on) (ground arith)
  ]

  chosen_address-read_on :
      (p : String) (ps : List String) (d : String)
      → rightmost_untrusted ps ≡ none
      → chosen_address (p ∷ ps) d ≡ read_on p (leftmost_address ps d)
  unfolding chosen_address rightmost_untrusted read_on leftmost_address
  chosen_address-read_on p ps d e = rw (e, chosen_address, rightmost_untrusted) (ground arith)

  scan_back-reverse :
      (ps : List String) (d : String) → scan_back lib trusted (reverse ps) d ≡ chosen_address ps d
  unfolding chosen_address rightmost_untrusted leftmost_address scan_back
  scan_back-reverse [] d = refl
  scan_back-reverse (p ∷ ps) d =
      ap (λ qs. scan_back lib trusted qs d) (reverse-cons p ps)
      ∙ elim (Option-cases (rightmost_untrusted ps)) [
        | inl e ↦
            let ih : scan_back lib trusted (reverse ps) d ≡ leftmost_address ps d =
              scan_back-reverse ps d ∙ rw (e, chosen_address) refl in
            scan_back-append (reverse ps) (p ∷ []) d (stops-reverse ps ∙ ap is_some e)
            ∙ ap (scan_back lib trusted (p ∷ [])) ih
            ∙ scan_back-read_on p (leftmost_address ps d)
            ∙ sym (chosen_address-read_on p ps d e)
        | inr (ip, e) ↦
            scan_back-stops (reverse ps) (p ∷ []) d (stops-reverse ps ∙ ap is_some e)
            ∙ scan_back-reverse ps d
            ∙ rw (e, chosen_address, rightmost_untrusted) refl
      ]

  -- From the forwarding header, the code takes the rightmost address outside the trusted networks, and the
  -- leftmost address if there is none outside.
  pub parse_xff_lem :
      (r : HttpRequest)
      → parse_xff lib r trusted
        ≡ chosen_address (forwarded_parts lib (r.header "X-Forwarded-For")) ""
  unfolding parse_xff
  parse_xff_lem r = scan_back-reverse (forwarded_parts lib (r.header "X-Forwarded-For")) ""
