-- ===== src/Xip/Zone.antt =====
-- src/xip.rs: which names lie in the zone.
use safexip.Prelude.{
  true, ◌||◌, ◌∷◌, ◌++◌, ◌≡◌, ◌⊎◌, ◌↔◌, inl, inr, refl, ap, ◌∙◌, arith, Bool-cases, some,
}
use safexip.Text.{Text, text_eq, to_lowercase, ends_with}
use safexip.Text.Laws.{text_eq_iff, ends_with-append, ends_with_sound}
use safexip.Config.{Ipv4Addr}
use safexip.Xip.{is_our_domain, parse_xip_ip}

-- Exactly the apex and the names that end in a dot and the apex are in the zone, in any case of
-- letters.
is_our_domain_iff :
    (hostname domain : Text)
    → (is_our_domain hostname domain ≡ true) ↔ (
        (to_lowercase hostname ≡ to_lowercase domain)
        ⊎ ((p : Text) × (to_lowercase hostname ≡ p ++ b'.' ∷ to_lowercase domain)))
unfolding is_our_domain
is_our_domain_iff hostname domain = (forth, back)
  where
    forth :
        (text_eq (to_lowercase hostname) (to_lowercase domain)
            || ends_with (to_lowercase hostname) (b'.' ∷ to_lowercase domain))
          ≡ true
        → (to_lowercase hostname ≡ to_lowercase domain)
          ⊎ ((p : Text) × (to_lowercase hostname ≡ p ++ b'.' ∷ to_lowercase domain))
    forth h = elim (Bool-cases (text_eq (to_lowercase hostname) (to_lowercase domain))) [
      | inl e ↦ inl ((text_eq_iff _ _).0 e)
      | inr e ↦
          inr (ends_with_sound (to_lowercase hostname) (b'.' ∷ to_lowercase domain) (rw e at h))
    ]

    back :
        (to_lowercase hostname ≡ to_lowercase domain)
          ⊎ ((p : Text) × (to_lowercase hostname ≡ p ++ b'.' ∷ to_lowercase domain))
        → (text_eq (to_lowercase hostname) (to_lowercase domain)
            || ends_with (to_lowercase hostname) (b'.' ∷ to_lowercase domain))
          ≡ true
    back (inl e) = rw ((text_eq_iff _ _).1 e) refl
    back (inr (p, e)) =
        let found : (ends_with (to_lowercase hostname) (b'.' ∷ to_lowercase domain) ≡ true) =
          ap (λ (t : Text). ends_with t (b'.' ∷ to_lowercase domain)) e
          ∙ ends_with-append p (b'.' ∷ to_lowercase domain) in
        ground arith

-- A name from which an address is read is in the zone.
pub parse_xip_ip-is_our_domain :
    (hostname domain : Text) (ip : Ipv4Addr)
    → parse_xip_ip hostname domain ≡ some ip
    → is_our_domain hostname domain ≡ true
unfolding parse_xip_ip is_our_domain ends_with
parse_xip_ip-is_our_domain hostname domain ip h = ground arith
