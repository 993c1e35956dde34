-- ===== src/Webhook/Admit/Writes.antt =====
-- The writes that the API server makes of one kind of object, and what they keep. The API server is not
-- code of the repository; it stores an object that is created or updated where the validating webhook
-- of its kind accepts the request (failurePolicy=fail), and nothing else.
use token_control.Common.{
  ◌≡◌, ◌≢◌, Bool, true, List, [], ◌∷◌, ◌++◌, filterb, filterb-kept, filterb-left, All, All-append,
  inl, inr, Bool-cases, subst,
}
use token_control.Common.Sort.{Distinct}
use token_control.Webhook.Request.{AdmissionRequest, create, update, delete}

-- The writes of one kind of object, each a request that the webhook consents to. An object is created
-- under a new key, and keeps its key when it is updated.
pub data Write {A Key : Type 0} (key : A → Key) (Consents : AdmissionRequest A → Type 0)
    : List A → List A → Type 0 where
  created :
      (x : A) (xs : List A)
      → All (λ y. key x ≢ key y) xs
      → Consents (create x)
      → Write key Consents xs (x ∷ xs)
  updated :
      (before after : List A) (x y : A)
      → key x ≡ key y
      → Consents (update x y)
      → Write key Consents (before ++ x ∷ after) (before ++ y ∷ after)
  deleted :
      (before after : List A) (x : A)
      → Consents (delete x)
      → Write key Consents (before ++ x ∷ after) (before ++ after)

All-split :
    {A : Type 0} (P : A → Type 0) (xs : List A) (y : A) (ys : List A)
    → All P (xs ++ y ∷ ys)
    → All P xs × P y × All P ys
All-split P [] y ys (p, h) = (tt, p, h)
All-split P (x ∷ xs) y ys (p, h) = let (a, b, c) = All-split P xs y ys h in ((p, a), b, c)

module _ {A Key : Type 0} (key : A → Key) (Consents : AdmissionRequest A → Type 0) where
  -- What holds of each object that the webhook accepts holds of each that is stored.
  pub Write-All :
      (P : A → Type 0)
      → ((x : A) → Consents (create x) → P x)
      → ((x y : A) → Consents (update x y) → P y)
      → {xs ys : List A} → Write key Consents xs ys
      → All P xs
      → All P ys
  Write-All P new changed (created x xs apart k) h = (new x k, h)
  Write-All P new changed (updated before after x y same k) h =
      let (a, p, b) = All-split P before x after h in
      All-append P before (y ∷ after) a (changed x y k, b)
  Write-All P new changed (deleted before after x k) h =
      let (a, p, b) = All-split P before x after h in All-append P before after a b

  abbrev OtherKey : A → A → Type 0
  OtherKey x y = key x ≢ key y

  Distinct-replace :
      (before after : List A) (x y : A)
      → key x ≡ key y
      → Distinct OtherKey (before ++ x ∷ after)
      → Distinct OtherKey (before ++ y ∷ after)
  Distinct-replace [] after x y same (h, d) = (subst (λ k. All (λ z. k ≢ key z) after) same h, d)
  Distinct-replace (b ∷ before) after x y same (h, d) =
      let (p, q, r) = All-split (OtherKey b) before x after h in
      (
        All-append (OtherKey b) before (y ∷ after) p (rw (← same) q, r),
        Distinct-replace before after x y same d,
      )

  Distinct-drop :
      (before after : List A) (x : A)
      → Distinct OtherKey (before ++ x ∷ after)
      → Distinct OtherKey (before ++ after)
  Distinct-drop [] after x (h, d) = d
  Distinct-drop (b ∷ before) after x (h, d) =
      let (p, q, r) = All-split (OtherKey b) before x after h in
      (All-append (OtherKey b) before after p r, Distinct-drop before after x d)

  -- No two stored objects have one key.
  pub Write-Distinct :
      {xs ys : List A} → Write key Consents xs ys → Distinct OtherKey xs → Distinct OtherKey ys
  Write-Distinct (created x xs apart k) d = (apart, d)
  Write-Distinct (updated before after x y same k) d = Distinct-replace before after x y same d
  Write-Distinct (deleted before after x k) d = Distinct-drop before after x d

pub All-filterb :
    {A : Type 0} (P : A → Type 0) (keep : A → Bool) (xs : List A)
    → All P xs
    → All P (filterb keep xs)
All-filterb P keep [] h = tt
All-filterb P keep (x ∷ xs) (p, h) = elim (Bool-cases (keep x)) [
  | inl k ↦ rw (filterb-kept keep x xs k) (p, All-filterb P keep xs h)
  | inr k ↦ rw (filterb-left keep x xs k) (All-filterb P keep xs h)
]

All-kept :
    {A : Type 0} (R S : A → A → Type 0) (keep : A → Bool)
    → ((x y : A) → keep x ≡ true → keep y ≡ true → R x y → S x y)
    → (x : A) → keep x ≡ true
    → (xs : List A) → All (R x) xs
    → All (S x) (filterb keep xs)
All-kept R S keep f x k [] h = tt
All-kept R S keep f x k (y ∷ ys) (h, hs) = elim (Bool-cases (keep y)) [
  | inr n ↦ rw (filterb-left keep y ys n) (All-kept R S keep f x k ys hs)
  | inl n ↦ rw (filterb-kept keep y ys n) (f x y k n h, All-kept R S keep f x k ys hs)
]

-- Of the elements that pass the test no two are alike, and each passes it.
pub Distinct-filterb :
    {A : Type 0} (R S : A → A → Type 0) (keep : A → Bool)
    → ((x y : A) → keep x ≡ true → keep y ≡ true → R x y → S x y)
    → (xs : List A) → Distinct R xs
    → Distinct S (filterb keep xs)
Distinct-filterb R S keep f [] d = tt
Distinct-filterb R S keep f (x ∷ xs) (h, d) = elim (Bool-cases (keep x)) [
  | inr k ↦ rw (filterb-left keep x xs k) (Distinct-filterb R S keep f xs d)
  | inl k ↦
      rw (filterb-kept keep x xs k) (All-kept R S keep f x k xs h, Distinct-filterb R S keep f xs d)
]
