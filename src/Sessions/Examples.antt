-- ===== src/Sessions/Examples.antt =====
-- A server whose token is its claims written out, with one session in its table.
use dubbing_pipeline.Base.{
  ◌≤◌, ℕ, suc, zero, ◌≡◌, ◌<◌, refl, arith, [], ◌∷◌, ◌++◌, Option, none, some, Text, codes, length,
  take, ltb, if◌then◌else◌, inl, inr, ap, text_eq, true, false, put, get,
}
use dubbing_pipeline.Sessions.Store.{Table, Row, Client, put_refresh_token, active_sessions}
use dubbing_pipeline.Sessions.Tokens.{
  Claims, Jwt, replay, rotate_refresh_token, decode_token, decoded, create_refresh_token,
  store_issued, expiry, issue_and_store_refresh_token,
}
use dubbing_pipeline.Sessions.Live.{Live, new_row}
use dubbing_pipeline.Sessions.Rotation.{rotate_refresh_token_lem, refused_after_rotation}

abbrev skip : ℕ → Text → Text
skip zero s = s
skip (suc n) [] = []
skip (suc n) (c ∷ s) = skip n s

take-append : (s t : Text) → take (length s) (s ++ t) ≡ s
take-append [] t = refl
take-append (c ∷ s) t = ap (λ r. c ∷ r) (take-append s t)

skip-append : (s t : Text) → skip (length s) (s ++ t) ≡ t
skip-append [] t = refl
skip-append (c ∷ s) t = skip-append s t

abbrev encode : Claims → Text
encode c = c.iat ∷ c.exp ∷ length c.typ ∷ length c.sub ∷ (c.typ ++ (c.sub ++ c.jti))

abbrev decode : ℕ → Text → Option Claims
decode now (iat ∷ exp ∷ a ∷ b ∷ s) =
    if ltb now exp
    then some (record {
      typ = take a s;
      sub = take b (skip a s);
      iat = iat;
      exp = exp;
      jti = skip b (skip a s);
    })
    else none
decode now _ = none

decode-encode : (now : ℕ) (c : Claims) → c.iat ≤ now → now < c.exp → decode now (encode c) ≡ some c
decode-encode now c issued h = simp (
  take-append c.typ (c.sub ++ c.jti),
  skip-append c.typ (c.sub ++ c.jti),
  take-append c.sub c.jti,
  skip-append c.sub c.jti,
  early,
)
  where
    early : ltb now c.exp ≡ true
    early = ground (arith, h)

abbrev server : Jwt
server = record { encode = encode; decode = decode; sha256 = λ s. s; decode-encode = decode-encode }

abbrev ann_claims : Claims
ann_claims = record {
  typ = codes "refresh";
  sub = codes "ann";
  iat = 1000;
  exp = 87400;
  jti = codes "r_1";
}

abbrev laptop : Client
laptop = record {
  device_id = some (codes "d1");
  device_name = none;
  created_ip = some (codes "10.0.0.1");
  user_agent = none;
}

abbrev one_session : Table
one_session = (issue_and_store_refresh_token server 1000 [] (codes "ann") 1 laptop (codes "r_1")).0

abbrev ann_row : Row
ann_row = record {
  user_id = codes "ann";
  token_hash = encode ann_claims;
  created_at = 1000;
  expires_at = 87400;
  revoked = false;
  replaced_by = none;
  last_used_at = none;
  device_id = some (codes "d1");
  device_name = none;
  created_ip = some (codes "10.0.0.1");
  last_ip = some (codes "10.0.0.1");
  user_agent = none;
}

-- Issuing a token opens one session.
one_session-active : active_sessions one_session 1000 (codes "ann") ≡ (codes "r_1", ann_row) ∷ []
unfolding active_sessions issue_and_store_refresh_token store_issued expiry decode_token decoded
    create_refresh_token text_eq put_refresh_token put
one_session-active = refl

ann-Live : Live server 1060 one_session (encode ann_claims) 1 none (codes "r_2") ann_claims ann_row
unfolding issue_and_store_refresh_token store_issued expiry decode_token decoded
    create_refresh_token text_eq put_refresh_token put get
ann-Live = record {
  genuine = refl;
  refresh = refl;
  has_sub = refl;
  has_jti = refl;
  row = refl;
  unrevoked = refl;
  hashed = refl;
  in_time = omega arith;
  some_days = omega arith;
  named = refl;
  unused = refl;
}

rotate_refresh_token_example :
    let t' =
      (rotate_refresh_token server 1060 one_session (encode ann_claims) 1 none (codes "r_2")).0 in
    ((rotate_refresh_token server 1060 one_session (encode ann_claims) 1 none (codes "r_2")).1
      ≡ inr (record {
        access_sub = codes "ann";
        old_jti = codes "r_1";
        new_refresh_token = create_refresh_token server 1060 (codes "ann") 1 (codes "r_2");
      }))
    × (get t' (codes "r_1")
        ≡ some (record ann_row {
          revoked = true;
          replaced_by = some (codes "r_2");
          last_used_at = some 1060;
        }))
    × (get t' (codes "r_2")
        ≡ some (
            new_row server 1060 one_session
              (encode ann_claims)
              1
              none
              (codes "r_2")
              ann_claims
              ann_row))
    × ((k : Text)
        → text_eq (codes "r_1") k ≡ false
        → text_eq (codes "r_2") k ≡ false
        → get t' k ≡ get one_session k)
rotate_refresh_token_example =
    rotate_refresh_token_lem server 1060 one_session (encode ann_claims) 1 none (codes "r_2")
      ann_claims ann_row ann-Live

refused_after_rotation_example :
    let t' =
      (rotate_refresh_token server 1060 one_session (encode ann_claims) 1 none (codes "r_2")).0 in
    let again = rotate_refresh_token server 1090 t' (encode ann_claims) 1 none (codes "r_3") in
    (again.1 ≡ inl replay) × (active_sessions again.0 1090 (codes "ann") ≡ [])
refused_after_rotation_example =
    refused_after_rotation server 1060 one_session (encode ann_claims) 1 none (codes "r_2")
      ann_claims ann_row ann-Live 1090 1 none (codes "r_3") refl
