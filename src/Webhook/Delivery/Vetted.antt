-- ===== src/Webhook/Delivery/Vetted.antt =====
-- What a delivery sends requests to.
use ziza_lend.Common.{
  ℕ, zero, suc, ◌≤◌, ◌≡◌, refl, ◌⊎◌, inl, inr, Option, List, Text, length, All, Option-cases, arith,
}
use ziza_lend.Webhook.Guard.{Url, Vetting, refused, vetted, assert_safe_webhook_url}
use ziza_lend.Webhook.Delivery.{Response, Delivery, redirect_target, follow, post_webhook}

Vetting-cases : (v : Vetting) → ((r : _) × (v ≡ refused r)) ⊎ ((url : Url) × (v ≡ vetted url))
Vetting-cases (refused r) = inl (r, refl)
Vetting-cases (vetted url) = inr (url, refl)

module _ (parse_url : Text → Option Url) (resolve_host : ℕ → Text → Option (List Text))
    (join_url : Text → Text → Option Text) (fetch : ℕ → Text → Option Response) where
  -- The guard passed the address in the delivery's n-th step, as it was written or as it was printed.
  abbrev pub IsVetted : Text → Type 0
  IsVetted url =
      (n : ℕ) × (raw : Text) × (checked : Url) × (assert_safe_webhook_url parse_url resolve_host n
          raw
        ≡ vetted checked)
      × ((url ≡ raw) ⊎ (url ≡ checked.href))

  abbrev IsBounded : ℕ → Delivery → Type 0
  IsBounded most d = All IsVetted d.fetched × (length d.fetched ≤ most)

  follow-IsBounded :
      (left n : ℕ) (url : Text)
      → IsVetted url
      → IsBounded (suc left) (follow parse_url resolve_host join_url fetch n left url)
  unfolding follow
  follow-IsBounded zero n url ok = elim (Option-cases (fetch n url)) [
    | inl e ↦ rw (follow, e) ((ok, tt), omega arith)
    | inr (response, e) ↦ elim (Option-cases (redirect_target response)) [
      | inl t ↦ rw (follow, e, t) ((ok, tt), omega arith)
      | inr (location, t) ↦ rw (follow, e, t) ((ok, tt), omega arith)
    ]
  ]
  follow-IsBounded (suc left) n url ok = elim (Option-cases (fetch n url)) [
    | inl e ↦ rw (follow, e) ((ok, tt), omega arith)
    | inr (response, e) ↦ elim (Option-cases (redirect_target response)) [
      | inl t ↦ rw (follow, e, t) ((ok, tt), omega arith)
      | inr (location, t) ↦ elim (Option-cases (join_url location url)) [
        | inl j ↦ rw (follow, e, t, j) ((ok, tt), omega arith)
        | inr (next, j) ↦
            elim (Vetting-cases (assert_safe_webhook_url parse_url resolve_host (suc n) next)) [
              | inl (reason, v) ↦ rw (follow, e, t, j, v) ((ok, tt), omega arith)
              | inr (checked, v) ↦
                  let (all_ok, short) =
                    follow-IsBounded left (suc n) checked.href
                      (suc n, next, checked, v, inr refl) in
                  rw (follow, e, t, j, v) ((ok, all_ok), omega (arith, short))
            ]
      ]
    ]
  ]

  -- Whatever the network, the resolver and the redirects answer, a delivery makes at most six requests,
  -- and each goes to an address that the guard passes, given what the resolver answers at some step.
  pub post_webhook-IsVetted :
      (callback_url : Text)
      → All IsVetted (post_webhook parse_url resolve_host join_url fetch callback_url).fetched
        × (length (post_webhook parse_url resolve_host join_url fetch callback_url).fetched ≤ 6)
  unfolding post_webhook
  post_webhook-IsVetted callback_url =
      elim (Vetting-cases (assert_safe_webhook_url parse_url resolve_host 0 callback_url)) [
        | inl (reason, v) ↦ rw (post_webhook, v) (tt, omega arith)
        | inr (checked, v) ↦
            rw (post_webhook, v)
              (follow-IsBounded 5 0 callback_url (0, callback_url, checked, v, inl refl))
      ]
