-- ===== src/Server.antt =====
-- server.rs: the configured origins, and the layer that answers cross-origin requests.
pub mod Origins
pub mod Serving
mod Tests
use text.Mathlib.Text.{◌==◌ as str_eq}
use noir_sidecar.Prelude.{
  String, ◌||◌, Option, List, [], ◌∷◌, map, option_map, unwrap_or, if◌then◌else◌,
}
use noir_sidecar.Prelude.Result.{Result, ok, err, collect}
use noir_sidecar.Client.Node.{Outcome, returned}

pub data ItemOrList (A : Type 0) : Type 0 where
  item : A → ItemOrList A
  list : List A → ItemOrList A

abbrev pub into_list : {A : Type 0} → ItemOrList A → List A
into_list (item x) = x ∷ []
into_list (list xs) = xs

-- What is used of `tower_http` and `http`; a layer of origins may panic on a header that it refuses.
pub record CorsCrates (Layer HeaderValue : Type 0) : Type 0 where
  pub new : Layer
  pub permissive : Layer
  pub from_str : String → Result String HeaderValue
  pub allow_origins : List HeaderValue → Outcome String Layer

module _ {Layer HeaderValue : Type 0} (crates : CorsCrates Layer HeaderValue) where
  allow_parsed : Result String (List HeaderValue) → Outcome String Layer
  allow_parsed (ok headers) = crates.allow_origins headers
  allow_parsed (err e) = returned (err e)

  allow : List String → Outcome String Layer
  unfolding allow_parsed collect
  allow origins = allow_parsed (collect (map crates.from_str origins))

  layer_of : List String → Outcome String Layer
  unfolding allow
  layer_of [] = returned (ok crates.new)
  layer_of (origin ∷ []) =
      if str_eq origin "*" || str_eq origin "all"
      then returned (ok crates.permissive)
      else allow (origin ∷ [])
  layer_of (origin ∷ other ∷ origins) = allow (origin ∷ other ∷ origins)

  pub cors_layer : Option (ItemOrList String) → Outcome String Layer
  unfolding layer_of
  cors_layer cors = layer_of (unwrap_or [] (option_map into_list cors))
