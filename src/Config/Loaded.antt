-- ===== src/Config/Loaded.antt =====
-- Which settings a program starts with.
use evm_indexer.Prelude.{
  ℕ, ◌<◌, ◌^◌, Str, str, ◌=ₛ◌, =ₛ_iff, ◌≡◌, ◌≢◌, refl, sym, subst, ◌⊎◌, inl, inr, Bool, Bool-cases,
  true, false, [], ◌∷◌, arith, ◌==◌,
}
use evm_indexer.Prelude.Int.{ℤ, pos, negsuc, neg}
use evm_indexer.Domain.Errors.{Result, ok, ◌>>=◌, >>=-eq-ok}
use evm_indexer.Handlers.Rest.Numbers.{parse_uint, in_int, atoi}
use evm_indexer.Handlers.Rest.Extracts.{parse_uint_lt}
use evm_indexer.Config.{
  Env, EnvFile, load_env, getenv, offset_default, range_time_default, concurrency_default,
  from_default, Config, read_or, settings, load,
}

-- The value of a variable that is not set or empty is the default; of another, what its text reads as.
abbrev pub IsRead : {A : Type 0} → (Str → Result A) → A → Str → A → Type 0
IsRead parse default v a = ((v ≡ []) × (a ≡ default)) ⊎ ((v ≢ []) × (parse v ≡ ok a))

read_or-IsRead :
    {A : Type 0} (parse : Str → Result A) (default : A) (v : Str) (a : A)
    → read_or parse default v ≡ ok a
    → IsRead parse default v a
unfolding read_or
read_or-IsRead parse default v a h = elim (Bool-cases (v =ₛ [])) [
  | inl e ↦ inl ((=ₛ_iff v []).0 e, ground arith)
  | inr e ↦ inr ((λ p. let k : (v =ₛ []) ≡ true = (=ₛ_iff v []).1 p in ground arith), ground arith)
]

abbrev pub FitsInt : ℤ → Type 0
FitsInt (pos n) = n < 2 ^ 63
FitsInt (negsuc n) = n < 2 ^ 63

in_int-FitsInt : (negative : Bool) (n : ℕ) (z : ℤ) → in_int negative n ≡ ok z → FitsInt z
unfolding neg
in_int-FitsInt true n z h = ground arith
in_int-FitsInt false n z h = ground arith

signed-FitsInt :
    (r : Result ℕ) (negative : Bool) (z : ℤ) → (r >>= in_int negative) ≡ ok z → FitsInt z
signed-FitsInt r negative z h =
    let (n, _, p) = >>=-eq-ok r (in_int negative) z h in in_int-FitsInt negative n z p

atoi-FitsInt : (s : Str) (z : ℤ) → atoi s ≡ ok z → FitsInt z
unfolding atoi
atoi-FitsInt [] z h = absurd (ground arith)
atoi-FitsInt (c ∷ cs) z h = elim (Bool-cases (c == b'-')) [
  | inl e ↦ signed-FitsInt (parse_uint cs) true z (ground arith)
  | inr e ↦ elim (Bool-cases (c == b'+')) [
    | inl p ↦ signed-FitsInt (parse_uint cs) false z (ground arith)
    | inr p ↦ signed-FitsInt (parse_uint (c ∷ cs)) false z (ground arith)
  ]
]

IsRead-FitsInt :
    (default : ℤ) (v : Str) (z : ℤ) → FitsInt default → IsRead atoi default v z → FitsInt z
IsRead-FitsInt default v z small (inl (_, p)) = subst FitsInt (sym p) small
IsRead-FitsInt default v z small (inr (_, p)) = atoi-FitsInt v z p

IsRead-lt :
    (default : ℕ) (v : Str) (n : ℕ) → default < 2 ^ 64 → IsRead parse_uint default v n → n < 2 ^ 64
IsRead-lt default v n small (inl (_, p)) = omega (arith, p)
IsRead-lt default v n small (inr (_, p)) = parse_uint_lt v n p

ok-injective : {A : Type 0} (a b : A) → ok a ≡ ok b → a ≡ b
ok-injective a b h = ground arith

module _ {F : Type 0} (parse_float : Str → Result F) (rate_limit_default : F) (os : Str → Str) where
  -- The settings that a program is configured with, each of its own variable, the numbers within their
  -- types.
  pub record IsConfigured (env : Env) (c : Config F) : Type 0 where
    pub range_max_time :
        IsRead parse_uint range_time_default (getenv os env (str "MAX_TIME")) c.range_max_time
        × (c.range_max_time < 2 ^ 64)
    pub offset_max :
        IsRead parse_uint offset_default (getenv os env (str "MAX_OFFSET")) c.offset_max
        × (c.offset_max < 2 ^ 64)
    pub from :
        IsRead parse_uint from_default (getenv os env (str "FROM")) c.from × (c.from < 2 ^ 64)
    pub rpc_rate_limit :
        IsRead parse_float rate_limit_default
          (getenv os env (str "RPC_RATE_LIMIT"))
          c.rpc_rate_limit
    pub concurrency_f :
        IsRead atoi concurrency_default (getenv os env (str "CONCURRENCY_FACTOR")) c.concurrency_f
        × FitsInt c.concurrency_f
    pub texts :
        (c.postgres_dsn ≡ getenv os env (str "POSTGRES_DSN"))
        × (c.redis_dsn ≡ getenv os env (str "REDIS_DSN"))
        × (c.rpc_http ≡ getenv os env (str "RPC_HTTP"))
        × (c.rpc_ws ≡ getenv os env (str "RPC_WS"))
        × (c.port ≡ getenv os env (str "PORT"))

  settings-IsConfigured :
      (env : Env) (c : Config F)
      → settings parse_float rate_limit_default os env ≡ ok c
      → IsConfigured env c
  unfolding settings
  settings-IsConfigured env c h =
      let (max_time, p1, h1) =
        >>=-eq-ok (read_or parse_uint range_time_default (getenv os env (str "MAX_TIME"))) _ c h in
      let (max_offset, p2, h2) =
        >>=-eq-ok (read_or parse_uint offset_default (getenv os env (str "MAX_OFFSET"))) _ c h1 in
      let (first, p3, h3) =
        >>=-eq-ok (read_or parse_uint from_default (getenv os env (str "FROM"))) _ c h2 in
      let (limit, p4, h4) =
        >>=-eq-ok (read_or parse_float rate_limit_default (getenv os env (str "RPC_RATE_LIMIT"))) _
          c h3 in
      let (factor, p5, h5) =
        >>=-eq-ok (read_or atoi concurrency_default (getenv os env (str "CONCURRENCY_FACTOR"))) _ c
          h4 in
      let r1 = read_or-IsRead parse_uint range_time_default _ max_time p1 in
      let r2 = read_or-IsRead parse_uint offset_default _ max_offset p2 in
      let r3 = read_or-IsRead parse_uint from_default _ first p3 in
      let r4 = read_or-IsRead parse_float rate_limit_default _ limit p4 in
      let r5 = read_or-IsRead atoi concurrency_default _ factor p5 in
      subst (IsConfigured env) (ok-injective _ c h5) (record {
        range_max_time = (r1, IsRead-lt range_time_default _ max_time (omega arith) r1);
        offset_max = (r2, IsRead-lt offset_default _ max_offset (omega arith) r2);
        from = (r3, IsRead-lt from_default _ first (omega arith) r3);
        rpc_rate_limit = r4;
        concurrency_f = (r5, IsRead-FitsInt concurrency_default _ factor (omega arith) r5);
        texts = (refl, refl, refl, refl, refl);
      })

  -- A program that starts has read its settings: each number is the default where its variable is
  -- not set or empty, else what the variable's text reads as; each integer fits its type of 64
  -- bits; each text is its variable's, and empty where that is not set: a text, the port's too,
  -- has no default.
  pub load-IsConfigured :
      (file : EnvFile) (c : Config F)
      → load parse_float rate_limit_default os file ≡ ok c
      → (env : Env) × (load_env file ≡ ok env) × IsConfigured env c
  unfolding load
  load-IsConfigured file c h =
      let (env, p, q) = >>=-eq-ok (load_env file) _ c h in (env, p, settings-IsConfigured env c q)
