-- ===== src/Server/Tests.antt =====
-- server.rs: a configuration that lets everyone in. The layers are the numbers of their origins.
use noir_sidecar.Prelude.{
  ℕ, ◌≡◌, ◌⊎◌, refl, String, Option, some, [], ◌∷◌, option_map, unwrap_or, length, suc, arith,
}
use noir_sidecar.Prelude.Result.{ok}
use noir_sidecar.Client.Node.{returned}
use noir_sidecar.Server.{ItemOrList, item, into_list, CorsCrates, cors_layer}
use noir_sidecar.Server.Origins.{CorsLaws, cors_layer-open}

abbrev counting : CorsCrates ℕ String
counting = record {
  new = 1;
  permissive = 0;
  from_str = λ s. ok s;
  allow_origins = λ headers. returned (ok (suc (length headers)));
}

abbrev counting_laws : CorsLaws counting
counting_laws = record {
  new_closed = λ e. absurd (omega (arith, e));
  origins_closed = λ headers e. absurd (ground (arith, e));
}

abbrev everyone : Option (ItemOrList String)
everyone = some (item "all")

cors_layer-open_example :
    (unwrap_or [] (option_map into_list everyone) ≡ "*" ∷ [])
    ⊎ (unwrap_or [] (option_map into_list everyone) ≡ "all" ∷ [])
unfolding cors_layer
cors_layer-open_example = cors_layer-open counting counting_laws everyone refl
