-- ===== src/Tests/Jwt.antt =====
-- A library of tokens without signatures, to run src/auth/jwt_service.py on: a token is the text of its
-- claims, one after another.
use Prim.Native.Char.{code}
use autonomous_ai_job_oreche.Prelude.{
  ℕ, zero, suc, pos, ◌*◌, ◌/◌, ◌≤◌, ◌<◌, String, Bool, true, ◌&&◌, Option, none, some, ◌≡◌, refl,
  sym, ap, ◌∙◌, arith, ltb, leb, ◌==◌, str_eq, eq_iff, if◌then◌else◌,
}
use autonomous_ai_job_oreche.Job.{Json, text, number, Fields, get_field}
use autonomous_ai_job_oreche.Principal.{
  Role, role_text, parse_role, parse_role-role_text, AuthMethod, api_key, jwt, client_credentials,
  method_text, parse_method,
}
use autonomous_ai_job_oreche.Auth.Tokens.{PyJwt, token_payload}
use autonomous_ai_job_oreche.Auth.Tokens.RoundTrip.{Signs}

-- A text in front of another: a comma before each character, and a stop at the end.
mark : String → String → String
mark String.[] rest = String.◌∷◌ "." rest
mark (String.◌∷◌ c s) rest = String.◌∷◌ "," (String.◌∷◌ c (mark s rest))

unmark : String → String × String
unmark String.[] = ("", "")
unmark (String.◌∷◌ c String.[]) = ("", "")
unmark (String.◌∷◌ c (String.◌∷◌ d s)) =
    let rest = unmark s in
    if code c == b',' then (String.◌∷◌ d rest.0, rest.1) else ("", String.◌∷◌ d s)

unmark-mark : (s rest : String) → unmark (mark s rest) ≡ (s, rest)
unfolding mark unmark
unmark-mark String.[] String.[] = refl
unmark-mark String.[] (String.◌∷◌ d s) = refl
unmark-mark (String.◌∷◌ c s) rest = rw (unmark-mark s rest) refl

mark_number : ℕ → String → String
mark_number zero rest = String.◌∷◌ "." rest
mark_number (suc n) rest = String.◌∷◌ "," (mark_number n rest)

unmark_number : String → ℕ × String
unmark_number String.[] = (0, "")
unmark_number (String.◌∷◌ c s) =
    let rest = unmark_number s in if code c == b',' then (suc rest.0, rest.1) else (0, s)

unmark_number-mark_number : (n : ℕ) (rest : String) → unmark_number (mark_number n rest) ≡ (n, rest)
unfolding mark_number unmark_number
unmark_number-mark_number zero rest = refl
unmark_number-mark_number (suc n) rest = rw (unmark_number-mark_number n rest) refl

abbrev text_at : String → Fields → String
text_at key payload = elim (get_field key payload) [ some (text s) ↦ s | _ ↦ "" ]

abbrev seconds_of : Option Json → ℕ
seconds_of (some (number (pos n))) = n / 1_000_000
seconds_of _ = 0

pub claims_text : Fields → String
claims_text p = mark (text_at "sub" p) (
    mark (text_at "tenant_id" p) (
      mark (text_at "role" p) (
        mark (text_at "name" p) (
          mark (text_at "auth_method" p) (
            mark (text_at "jti" p) (
              mark (text_at "iss" p) (
                mark (text_at "aud" p) (
                  mark_number (seconds_of (get_field "iat" p))
                    (mark_number (seconds_of (get_field "exp" p)) "")))))))))

pub record Claims : Type 0 where
  pub sub : String
  pub tenant_id : String
  pub role : String
  pub name : String
  pub auth_method : String
  pub jti : String
  pub iss : String
  pub aud : String
  pub iat : ℕ
  pub exp : ℕ

pub read_claims : String → Claims
read_claims t =
    let a = unmark t in
    let b = unmark a.1 in
    let c = unmark b.1 in
    let d = unmark c.1 in
    let e = unmark d.1 in
    let f = unmark e.1 in
    let g = unmark f.1 in
    let h = unmark g.1 in
    let i = unmark_number h.1 in
    record {
      sub = a.0;
      tenant_id = b.0;
      role = c.0;
      name = d.0;
      auth_method = e.0;
      jti = f.0;
      iss = g.0;
      aud = h.0;
      iat = i.0;
      exp = (unmark_number i.1).0;
    }

read_claims-claims_text :
    (subject_id tenant_id : String) (r : Role) (name : String) (method : AuthMethod)
    (jti issuer audience : String) (iat exp : ℕ)
    → read_claims
        (claims_text (token_payload subject_id tenant_id r name method jti issuer audience iat exp))
      ≡ record {
        sub = subject_id;
        tenant_id = tenant_id;
        role = role_text r;
        name = name;
        auth_method = method_text method;
        jti = jti;
        iss = issuer;
        aud = audience;
        iat = iat * 1_000_000 / 1_000_000;
        exp = exp * 1_000_000 / 1_000_000;
      }
unfolding read_claims claims_text get_field
read_claims-claims_text subject_id tenant_id r name method jti issuer audience iat exp =
    simp (unmark-mark, unmark_number-mark_number)

abbrev payload_of : Claims → Option Role → Option AuthMethod → Option Fields
payload_of c (some r) (some m) =
    some (token_payload c.sub c.tenant_id r c.name m c.jti c.iss c.aud c.iat c.exp)
payload_of c _ _ = none

-- The claims, if the token is for this audience and issuer, and the time is right.
pub checked_claims : Claims → String → String → ℕ → Option Fields
unfolding parse_role parse_method
checked_claims c audience issuer now =
    if str_eq c.aud audience
      && str_eq c.iss issuer
      && leb (c.iat * 1_000_000) now
      && ltb now (c.exp * 1_000_000)
    then payload_of c (parse_role c.role) (parse_method c.auth_method)
    else none

abbrev pub unsigned : PyJwt
unsigned = record {
  encode = λ payload key algorithm. some (claims_text payload);
  decode =
      λ t key algorithm audience issuer now. checked_claims (read_claims t) audience issuer now;
}

parse_method-method_text : (m : AuthMethod) → parse_method (method_text m) ≡ some m
unfolding parse_method
parse_method-method_text api_key = refl
parse_method-method_text jwt = refl
parse_method-method_text client_credentials = refl

whole_seconds : (n : ℕ) → n * 1_000_000 / 1_000_000 ≡ n
whole_seconds n = omega arith

checked-in_time :
    (c : Claims) (r : Role) (m : AuthMethod) (audience issuer : String) (now : ℕ)
    → c.aud ≡ audience
    → c.iss ≡ issuer
    → parse_role c.role ≡ some r
    → parse_method c.auth_method ≡ some m
    → c.iat * 1_000_000 ≤ now
    → now < c.exp * 1_000_000
    → checked_claims c audience issuer now ≡ payload_of c (some r) (some m)
unfolding checked_claims
checked-in_time c r m audience issuer now a i role_ok method_ok from before =
    rw (role_ok, method_ok) (by_tests ((eq_iff c.aud audience).1 a) ((eq_iff c.iss issuer).1 i))
  where
    by_tests :
        {x y : Bool}
        → x ≡ true
        → y ≡ true
        → (if x && y && leb (c.iat * 1_000_000) now && ltb now (c.exp * 1_000_000)
            then payload_of c (some r) (some m)
            else none)
          ≡ payload_of c (some r) (some m)
    by_tests hx hy = ground arith

checked-expired :
    (c : Claims) (audience issuer : String) (now : ℕ)
    → c.exp * 1_000_000 ≤ now
    → checked_claims c audience issuer now ≡ none
unfolding checked_claims
checked-expired c audience issuer now over =
    by_tests (str_eq c.aud audience) (str_eq c.iss issuer) (leb (c.iat * 1_000_000) now)
      (payload_of c (parse_role c.role) (parse_method c.auth_method))
  where
    by_tests :
        (x y z : Bool) (o : Option Fields)
        → (if x && y && z && ltb now (c.exp * 1_000_000) then o else none) ≡ none
    by_tests x y z o = ground arith

some_same : {a b : String} → some a ≡ some b → a ≡ b
some_same h = cc

module _ (subject_id tenant_id : String) (r : Role) (name : String) (method : AuthMethod)
    (jti issuer audience : String) (iat exp : ℕ) where
  abbrev claims : Claims
  claims = record {
    sub = subject_id;
    tenant_id = tenant_id;
    role = role_text r;
    name = name;
    auth_method = method_text method;
    jti = jti;
    iss = issuer;
    aud = audience;
    iat = iat;
    exp = exp;
  }

  abbrev payload : Fields
  payload = token_payload subject_id tenant_id r name method jti issuer audience iat exp

  read_claims-of_token : (t : String) → some (claims_text payload) ≡ some t → read_claims t ≡ claims
  read_claims-of_token t same =
      ap read_claims (sym (some_same same))
      ∙ (read_claims-claims_text subject_id tenant_id r name method jti issuer audience iat exp
          ∙ (ap (λ n. record claims { iat = n; exp = exp * 1_000_000 / 1_000_000 })
                (whole_seconds iat)
              ∙ ap (λ n. record claims { exp = n }) (whole_seconds exp)))

  decodes_in_time :
      (now : ℕ) (t : String)
      → some (claims_text payload) ≡ some t
      → iat * 1_000_000 ≤ now
      → now < exp * 1_000_000
      → checked_claims (read_claims t) audience issuer now ≡ some payload
  decodes_in_time now t same from before =
      ap (λ c. checked_claims c audience issuer now) (read_claims-of_token t same)
      ∙ checked-in_time claims r method audience issuer now refl refl (parse_role-role_text r)
          (parse_method-method_text method) from before

  refused_later :
      (now : ℕ) (t : String)
      → some (claims_text payload) ≡ some t
      → exp * 1_000_000 ≤ now
      → checked_claims (read_claims t) audience issuer now ≡ none
  refused_later now t same over =
      ap (λ c. checked_claims c audience issuer now) (read_claims-of_token t same)
      ∙ checked-expired claims audience issuer now over

pub unsigned-Signs : (key algorithm : String) → Signs unsigned key algorithm
unsigned-Signs key algorithm = record {
  encodes = λ p. (claims_text p, refl);
  decodes =
      λ s n r name m jti i a iat exp now t. decodes_in_time s n r name m jti i a iat exp now t;
  expires = λ s n r name m jti i a iat exp now t. refused_later s n r name m jti i a iat exp now t;
}
