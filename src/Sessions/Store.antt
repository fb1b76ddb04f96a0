-- ===== src/Sessions/Store.antt =====
-- The table `refresh_tokens` of src/dubbing_pipeline/api/models.py. Times are whole seconds.
use mathlib.Core.Path.{subst}
use dubbing_pipeline.Base.{
  ℕ, suc, ◌≡◌, refl, Bool, true, false, not, ◌&&◌, List, [], ◌∷◌, Option, none, some, Text, text_eq,
  text_eq_sound, text_eq_refl, Bool-cases, ◌⊎◌, inl, inr, Dict, get, put, take, ltb, if◌then◌else◌,
}

pub record Row : Type 0 where
  pub user_id : Text
  pub token_hash : Text
  pub created_at : ℕ
  pub expires_at : ℕ
  pub revoked : Bool
  pub replaced_by : Option Text
  pub last_used_at : Option ℕ
  pub device_id : Option Text
  pub device_name : Option Text
  pub created_ip : Option Text
  pub last_ip : Option Text
  pub user_agent : Option Text

abbrev pub Table : Type 0
Table = Dict Row

-- `str(s or "") or None`
abbrev pub nonempty : Option Text → Option Text
nonempty none = none
nonempty (some []) = none
nonempty (some (c ∷ s)) = some (c ∷ s)

-- `str(user_agent)[:160] if user_agent else None`
abbrev pub clipped : Option Text → Option Text
clipped none = none
clipped (some []) = none
clipped (some (c ∷ s)) = some (take 160 (c ∷ s))

-- What a client says of itself.
pub record Client : Type 0 where
  pub device_id : Option Text
  pub device_name : Option Text
  pub created_ip : Option Text
  pub user_agent : Option Text

-- `put_refresh_token`, INSERT OR REPLACE
unfoldable pub put_refresh_token : Table → Text → Text → Text → ℕ → ℕ → Client → Table
put_refresh_token t jti user_id token_hash created_at expires_at c = put t jti (record {
  user_id = user_id;
  token_hash = token_hash;
  created_at = created_at;
  expires_at = expires_at;
  revoked = false;
  replaced_by = none;
  last_used_at = none;
  device_id = nonempty c.device_id;
  device_name = nonempty c.device_name;
  created_ip = nonempty c.created_ip;
  last_ip = nonempty c.created_ip;
  user_agent = clipped c.user_agent;
})

unfoldable pub get_refresh_token : Table → Text → Option Row
get_refresh_token = get

-- UPDATE … WHERE a test on the key and the row
unfoldable pub update_where : (Text → Row → Bool) → (Row → Row) → Table → Table
update_where p f [] = []
update_where p f ((k, r) ∷ t) =
    let rest = update_where p f t in if p k r then (k, f r) ∷ rest else (k, r) ∷ rest

abbrev pub revoke_row : ℕ → Row → Row
revoke_row now r = record r { revoked = true; last_used_at = some now }

abbrev pub replace_row : ℕ → Text → Row → Row
replace_row now new_jti r = record r {
  revoked = true;
  replaced_by = some new_jti;
  last_used_at = some now;
}

-- `AuthStore.rotate_refresh_token`
unfoldable pub mark_replaced : Table → ℕ → Text → Text → Table
mark_replaced t now old_jti new_jti =
    update_where (λ k r. text_eq k old_jti) (replace_row now new_jti) t

unfoldable pub revoke_refresh_token : Table → ℕ → Text → Table
revoke_refresh_token t now jti = update_where (λ k r. text_eq k jti) (revoke_row now) t

unfoldable pub revoke_all_for_user : Table → ℕ → Text → Table
revoke_all_for_user t now user_id =
    update_where (λ k r. text_eq r.user_id user_id) (revoke_row now) t

-- `revoke_sessions_by_device`: the table, and the number of rows that the UPDATE matched
pub count_rows : (Row → Bool) → Table → ℕ
count_rows p [] = 0
count_rows p ((k, r) ∷ t) = let rest = count_rows p t in if p r then suc rest else rest

abbrev pub device_is : Text → Option Text → Bool
device_is d none = false
device_is d (some e) = text_eq e d

unfoldable pub revoke_sessions_by_device : Table → ℕ → Text → Text → Table × ℕ
unfolding count_rows
revoke_sessions_by_device t now user_id device_id =
    let p = λ (r : Row). text_eq r.user_id user_id && device_is device_id r.device_id in
    (update_where (λ k r. p r) (revoke_row now) t, count_rows p t)

-- A row of `list_active_sessions`.
abbrev pub is_active : ℕ → Text → Row → Bool
is_active now user_id r = text_eq r.user_id user_id && (not r.revoked && ltb now r.expires_at)

-- The rows of `list_active_sessions`, before they are sorted.
unfoldable pub active_sessions : Table → ℕ → Text → List (Text × Row)
active_sessions [] now user_id = []
active_sessions ((k, r) ∷ t) now user_id =
    let rest = active_sessions t now user_id in
    if is_active now user_id r then (k, r) ∷ rest else rest

abbrev pub updated : (Text → Row → Bool) → (Row → Row) → Text → Option Row → Option Row
updated p f k none = none
updated p f k (some r) = some (if p k r then f r else r)

pub get-update_where :
    (p : Text → Row → Bool) (f : Row → Row) (t : Table) (k : Text)
    → get (update_where p f t) k ≡ updated p f k (get t k)
unfolding get update_where
get-update_where p f [] k = refl
get-update_where p f ((j, r) ∷ t) k = elim (Bool-cases (text_eq j k)) [
  | inl b ↦ rw b (
      subst (λ x. get (update_where p f ((j, r) ∷ t)) x ≡ some (if p x r then f r else r))
        (text_eq_sound j k b) (at_head (Bool-cases (p j r))))
  | inr b ↦ rw b (elim (Bool-cases (p j r)) [
    | inl c ↦ rw c (rw b (get-update_where p f t k))
    | inr c ↦ rw c (rw b (get-update_where p f t k))
  ])
]
  where
    at_head :
        (p j r ≡ true) ⊎ (p j r ≡ false)
        → get (update_where p f ((j, r) ∷ t)) j ≡ some (if p j r then f r else r)
    at_head (inl c) = rw (c, text_eq_refl j)
    at_head (inr c) = rw (c, text_eq_refl j)
