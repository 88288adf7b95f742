-- ===== src/Server/Origins.antt =====
-- server.rs, `cors_layer`: when every origin is let in.
use text.Mathlib.Text.{◌==◌ as str_eq}
use text.Mathlib.TextEquality.{eq_iff}
use noir_sidecar.Prelude.{
  ◌≡◌, ◌≢◌, ◌⊎◌, inl, inr, ap, String, Option, List, [], ◌∷◌, option_map, unwrap_or, arith,
  Bool-cases, map,
}
use noir_sidecar.Prelude.Result.{Result, ok, err, collect}
use noir_sidecar.Client.Node.{returned}
use noir_sidecar.Server.{
  ItemOrList, into_list, CorsCrates, allow_parsed, allow, layer_of, cors_layer,
}

-- The empty layer is not the permissive one, and no list of origins makes the permissive one.
pub record CorsLaws {Layer HeaderValue : Type 0} (crates : CorsCrates Layer HeaderValue)
    : Type 0 where
  pub new_closed : crates.new ≢ crates.permissive
  pub origins_closed :
      (headers : List HeaderValue) → crates.allow_origins headers ≢ returned (ok crates.permissive)

module _ {Layer HeaderValue : Type 0} (crates : CorsCrates Layer HeaderValue)
    (laws : CorsLaws crates) where
  allow_parsed-closed :
      (r : Result String (List HeaderValue))
      → allow_parsed crates r ≢ returned (ok crates.permissive)
  unfolding allow_parsed
  allow_parsed-closed (ok headers) h = laws.origins_closed headers h
  allow_parsed-closed (err e) h = cc

  layer_of-open :
      (origins : List String)
      → layer_of crates origins ≡ returned (ok crates.permissive)
      → (origins ≡ "*" ∷ []) ⊎ (origins ≡ "all" ∷ [])
  unfolding layer_of allow
  layer_of-open [] h = absurd (laws.new_closed (ground (arith, h)))
  layer_of-open (origin ∷ other ∷ origins) h = absurd (allow_parsed-closed _ h)
  layer_of-open (origin ∷ []) h = elim (Bool-cases (str_eq origin "*")) [
    | inl star ↦ inl (ap (λ s. s ∷ []) ((eq_iff _ _).0 star))
    | inr no_star ↦ elim (Bool-cases (str_eq origin "all")) [
      | inl all ↦ inr (ap (λ s. s ∷ []) ((eq_iff _ _).0 all))
      | inr no_all ↦ absurd (
          allow_parsed-closed (collect (map crates.from_str (origin ∷ [])))
            (ground (arith, h, no_star, no_all)))
    ]
  ]

  -- Cross-origin requests are let in from everywhere only when the configuration names a single
  -- origin, `*` or `all`, as an item or as a list; several origins are never read as such, and no
  -- configuration at all lets none in.
  pub cors_layer-open :
      (cors : Option (ItemOrList String))
      → cors_layer crates cors ≡ returned (ok crates.permissive)
      → (unwrap_or [] (option_map into_list cors) ≡ "*" ∷ [])
        ⊎ (unwrap_or [] (option_map into_list cors) ≡ "all" ∷ [])
  unfolding cors_layer
  cors_layer-open cors h = layer_of-open (unwrap_or [] (option_map into_list cors)) h
