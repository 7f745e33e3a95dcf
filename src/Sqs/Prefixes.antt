-- ===== src/Sqs/Prefixes.antt =====
-- contrib/sqs/publisher.go: the sorted list of prefixes.
use mathlib.Core.Path.{subst}
use o4x.Prelude.{
  ◌≤◌, ◌<◌, ◌≡◌, refl, sym, ap, ◌∙◌, inl, inr, true, false, Option, none, some, List, [], ◌∷◌, Text,
  text_eq, text_eq_iff, length, ltb, if◌then◌else◌, All, Bool-cases, arith,
}
use o4x.Sqs.QueueMap.{PrefixRoute, without_prefix, insert_route}

-- Longer prefixes first, and no prefix twice.
abbrev pub Ordered : List PrefixRoute → Type 0
Ordered [] = Unit
Ordered (p ∷ ps) =
    All (λ q. (length q.prefix ≤ length p.prefix) × (text_eq q.prefix p.prefix ≡ false)) ps
    × Ordered ps

unfoldable pub url_of : List PrefixRoute → Text → Option Text
url_of [] p = none
url_of (r ∷ rs) p = let rest = url_of rs p in if text_eq r.prefix p then some r.queue_url else rest

pub apart : (s t : Text) → text_eq s t ≡ false → text_eq t s ≡ false
apart s t h = elim (Bool-cases (text_eq t s)) [
  | inl e ↦ absurd (cc (sym h ∙ (text_eq_iff s t).1 (sym ((text_eq_iff t s).0 e))))
  | inr e ↦ e
]

-- Of a prefix from which all entries differ, the list has no entry.
pub url_of-none :
    (p : PrefixRoute) (ps : List PrefixRoute)
    → All (λ q. (length q.prefix ≤ length p.prefix) × (text_eq q.prefix p.prefix ≡ false)) ps
    → url_of ps p.prefix ≡ none
unfolding url_of
url_of-none p [] h = refl
url_of-none p (q ∷ ps) h = rw (h.0.1) (url_of-none p ps h.1)

pub All-without_prefix :
    (P : PrefixRoute → Type 0) (p : Text) (ps : List PrefixRoute)
    → All P ps
    → All P (without_prefix p ps)
unfolding without_prefix
All-without_prefix P p [] h = tt
All-without_prefix P p (q ∷ ps) h = elim (Bool-cases (text_eq q.prefix p)) [
  | inl e ↦ rw e h.1
  | inr e ↦ rw e (h.0, All-without_prefix P p ps h.1)
]

pub without_prefix-Ordered :
    (p : Text) (ps : List PrefixRoute) → Ordered ps → Ordered (without_prefix p ps)
unfolding without_prefix
without_prefix-Ordered p [] h = tt
without_prefix-Ordered p (q ∷ ps) h = elim (Bool-cases (text_eq q.prefix p)) [
  | inl e ↦ rw e h.1
  | inr e ↦ rw e (All-without_prefix _ p ps h.0, without_prefix-Ordered p ps h.1)
]

-- After the first loop no entry has the prefix, and the others are found as before.
pub without_prefix-gone :
    (p : Text) (ps : List PrefixRoute)
    → Ordered ps
    → All (λ q. text_eq q.prefix p ≡ false) (without_prefix p ps)
unfolding without_prefix
without_prefix-gone p [] h = tt
without_prefix-gone p (q ∷ ps) h = elim (Bool-cases (text_eq q.prefix p)) [
  | inl e ↦ rw e (differ ps h.0 e)
  | inr e ↦ rw e (e, without_prefix-gone p ps h.1)
]
  where
    differ :
        (qs : List PrefixRoute)
        → All (λ x. (length x.prefix ≤ length q.prefix) × (text_eq x.prefix q.prefix ≡ false)) qs
        → text_eq q.prefix p ≡ true
        → All (λ x. text_eq x.prefix p ≡ false) qs
    differ [] a e = tt
    differ (x ∷ qs) a e = (
      subst (λ t. text_eq x.prefix t ≡ false) ((text_eq_iff q.prefix p).0 e) a.0.1,
      differ qs a.1 e,
    )

pub url_of-without_prefix :
    (p t : Text) (ps : List PrefixRoute)
    → text_eq p t ≡ false
    → url_of (without_prefix p ps) t ≡ url_of ps t
unfolding url_of without_prefix
url_of-without_prefix p t [] h = refl
url_of-without_prefix p t (q ∷ ps) h = elim (Bool-cases (text_eq q.prefix p)) [
  | inl e ↦
      let other : text_eq q.prefix t ≡ false =
        subst (λ s. text_eq s t ≡ false) (sym ((text_eq_iff q.prefix p).0 e)) h in
      rw (e, other) refl
  | inr e ↦ rw (e, url_of-without_prefix p t ps h) refl
]

pub All-insert_route :
    (P : PrefixRoute → Type 0) (r : PrefixRoute) (ps : List PrefixRoute)
    → P r
    → All P ps
    → All P (insert_route r ps)
unfolding insert_route
All-insert_route P r [] k h = (k, tt)
All-insert_route P r (q ∷ ps) k h = elim (Bool-cases (ltb (length q.prefix) (length r.prefix))) [
  | inl e ↦ rw e (k, h)
  | inr e ↦ rw e (h.0, All-insert_route P r ps k h.1)
]

pub insert_route-Ordered :
    (r : PrefixRoute) (ps : List PrefixRoute)
    → Ordered ps
    → All (λ q. text_eq q.prefix r.prefix ≡ false) ps
    → Ordered (insert_route r ps)
unfolding insert_route
insert_route-Ordered r [] h a = (tt, tt)
insert_route-Ordered r (q ∷ ps) h a = elim (Bool-cases (ltb (length q.prefix) (length r.prefix))) [
  | inl e ↦ rw e (((ground arith, a.0), below ps h.0 a.1 (ground arith)), h)
  | inr e ↦ rw e (
    All-insert_route _ r ps (ground arith, apart q.prefix r.prefix a.0) h.0,
    insert_route-Ordered r ps h.1 a.1,
  )
]
  where
    below :
        (qs : List PrefixRoute)
        → All (λ x. (length x.prefix ≤ length q.prefix) × (text_eq x.prefix q.prefix ≡ false)) qs
        → All (λ x. text_eq x.prefix r.prefix ≡ false) qs
        → length q.prefix ≤ length r.prefix
        → All (λ x. (length x.prefix ≤ length r.prefix) × (text_eq x.prefix r.prefix ≡ false)) qs
    below [] b c le = tt
    below (x ∷ qs) b c le = ((omega (arith, b.0.0), c.0), below qs b.1 c.1 le)

pub url_of-insert_route :
    (r : PrefixRoute) (ps : List PrefixRoute) (t : Text)
    → All (λ q. text_eq q.prefix r.prefix ≡ false) ps
    → url_of (insert_route r ps) t ≡ (if text_eq r.prefix t then some r.queue_url else url_of ps t)
unfolding url_of insert_route
url_of-insert_route r [] t h = refl
url_of-insert_route r (q ∷ ps) t h = elim (Bool-cases (ltb (length q.prefix) (length r.prefix))) [
  | inl e ↦ rw e refl
  | inr e ↦
      rw (e, url_of-insert_route r ps t h.1)
        (elim (Bool-cases (text_eq r.prefix t)) [
          | inl same ↦
              let other : text_eq q.prefix t ≡ false =
                subst (λ s. text_eq q.prefix s ≡ false) ((text_eq_iff r.prefix t).0 same) h.0 in
              rw (same, other) refl
          | inr new ↦ rw new refl
        ])
]

pub longer-differs : (s t : Text) → length s < length t → text_eq s t ≡ false
longer-differs s t h = elim (Bool-cases (text_eq s t)) [
  | inl e ↦ absurd (omega (arith, ap length ((text_eq_iff s t).0 e)))
  | inr e ↦ e
]

pub url_of-longer :
    (ps : List PrefixRoute) (t : Text)
    → All (λ q. length q.prefix < length t) ps
    → url_of ps t ≡ none
unfolding url_of
url_of-longer [] t h = refl
url_of-longer (q ∷ ps) t h = rw (longer-differs q.prefix t h.0, url_of-longer ps t h.1) refl
