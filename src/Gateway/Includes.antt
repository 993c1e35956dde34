-- ===== src/Gateway/Includes.antt =====
-- That an object has what another has, and perhaps more: what a server-side apply leaves of the object
-- that was sent.
use token_control.Common.{◌≡◌, inl, inr, refl, some, Some, Bool-cases, arith, subst}
use token_control.Common.Int.{ℤ}
use token_control.Text.{Text, ◌==◌}
use token_control.Gateway.Object.{
  Value, text, number, object, array, Fields, no_field, with_field, Values, no_item, item,
  from_values, get_field,
}

mutual
  -- Every field of a map is there with a value that includes its value, and for each item of a slice
  -- there is one that includes it.
  pub data Includes : Value → Value → Type 0 where
    same_text : (t : Text) → Includes (text t) (text t)
    same_number : (n : ℤ) → Includes (number n) (number n)
    each_field :
        (fs gs : Fields)
        → ((k : Text) (v : Value) → get_field gs k ≡ some v → HasField fs k v)
        → Includes (object fs) (object gs)
    each_item : (vs ws : Values) → HasItems vs ws → Includes (array vs) (array ws)

  pub data HasField : Fields → Text → Value → Type 0 where
    at_key :
        (fs : Fields) (k : Text) (v w : Value)
        → get_field fs k ≡ some w
        → Includes w v
        → HasField fs k v

  pub data HasItems : Values → Values → Type 0 where
    no_more : (vs : Values) → HasItems vs no_item
    one_more :
        (vs ws : Values) (v w : Value)
        → Some (λ x. x ≡ v) (from_values vs)
        → Includes v w
        → HasItems vs ws
        → HasItems vs (item w ws)

-- The items of the second slice are items of the first.
abbrev Within : Values → Values → Type 0
Within vs ws = (x : Value) → Some (λ y. y ≡ x) (from_values ws) → Some (λ y. y ≡ x) (from_values vs)

mutual
  unfolding get_field

  pub Includes-refl : (v : Value) → Includes v v
  Includes-refl (text t) = Includes.same_text t
  Includes-refl (number n) = Includes.same_number n
  Includes-refl (object fs) =
      Includes.each_field fs fs (λ k v h. HasField.at_key fs k v v h (field_Includes fs k v h))
  Includes-refl (array vs) = Includes.each_item vs vs (items_HasItems vs vs (λ x h. h))

  field_Includes : (fs : Fields) (k : Text) (v : Value) → get_field fs k ≡ some v → Includes v v
  field_Includes no_field k v h = absurd (ground arith)
  field_Includes (with_field j w rest) k v h = elim (Bool-cases (j == k)) [
    | inl e ↦ let same : w ≡ v = ground arith in subst (λ x. Includes x x) same (Includes-refl w)
    | inr e ↦ field_Includes rest k v (ground arith)
  ]

  items_HasItems : (vs ws : Values) → Within vs ws → HasItems vs ws
  items_HasItems vs no_item h = HasItems.no_more vs
  items_HasItems vs (item w ws) h =
      HasItems.one_more vs ws w w (h w (inl refl)) (Includes-refl w)
        (items_HasItems vs ws (λ x m. h x (inr m)))
