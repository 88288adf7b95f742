-- ===== src/Client/Views/Requests.antt =====
-- client/mod.rs, client/solana.rs: a request and a runtime call, from a good node.
use Prim.Native.String
use noir_sidecar.Prelude.{refl, ap, ◌∙◌, sym, subst, String, some, [], ◌∷◌}
use noir_sidecar.Prelude.Result.{Result, ok, map_err}
use noir_sidecar.Prelude.Result.{◌>>=◌ as ◌>>=?◌}
use noir_sidecar.Sdk.{Bytes}
use noir_sidecar.Client.{Error, client_error, parse_error, Value, Hash, text, hash, ArrayParams}
use noir_sidecar.Client.Node.{Node, answered, Io, ◌>>=◌, lift}
use noir_sidecar.Client.Codec.{Codec}
use noir_sidecar.Client.Calls.{new_request, request}
use noir_sidecar.Client.Calls.Replies.{HexLaws}
use noir_sidecar.Client.Served.Reached.{Server}
use noir_sidecar.Client.Solana.{runtime_call}
use noir_sidecar.Client.Solana.Accounts.{runtime_call_lem}
use noir_sidecar.Client.Views.{Answers, Calls, Computes, Backs, Gives, lift-Gives, >>=-Gives}

module _ (codec : Codec) (laws : HexLaws codec) (server : Server) (Good : Node → Type 0)
    (backs : Backs server Good) where
  pub request-Gives :
      {A : Type 0} (from_value : Value → Result String A) (method : String) (params : ArrayParams)
      (a : A)
      → Answers codec server from_value method params a
      → Gives Good (request from_value method params) (ok a)
  unfolding Gives request
  request-Gives from_value method params a (v, replied, read) n good = (
    record n { sent = new_request method params n.sent ∷ n.sent },
    backs.stays method params n good,
    rw (backs.delivers method params n good, replied, read) refl,
  )

  pub runtime_call-Gives :
      (method : String) (params response : Bytes) (at_hash : Hash)
      → Computes codec server method params at_hash response
      → Gives Good (runtime_call codec method (ok params) (some at_hash)) (ok response)
  unfolding Gives
  runtime_call-Gives method params response at_hash c n good =
      let (v, replied, read) = c.replied in
      (
        record n {
          sent =
              new_request "state_call"
                (text "SolanaRuntimeApi_call"
                  ∷ text (String.◌++◌ "0x" (codec.hex_encode (codec.encode_call method params)))
                  ∷ hash (some at_hash)
                  ∷ [])
                n.sent
              ∷ n.sent;
        },
        backs.stays _ _ n good,
        runtime_call_lem codec method n params c.raw (ok response) (some at_hash) laws
            (record {
              value = v;
              spelling = c.spelling;
              delivered =
                  backs.delivers _ _ n good ∙ ap (λ r. answered (map_err client_error r)) replied;
              parsed = read;
              spells = c.spells;
            })
            c.decoded,
      )

  -- A runtime call on an argument that is serialized, with its answer deserialized.
  pub call-Gives :
      {I O : Type 0} (serialize : I → Result String Bytes) (deserialize : Bytes → Result String O)
      (method : String) (i : I) (at_hash : Hash) (o : O)
      → Calls codec server serialize deserialize method i at_hash o
      → Gives Good
          (runtime_call codec method (serialize i) (some at_hash) >>= λ response.
            lift (map_err parse_error (deserialize response)))
          (ok o)
  call-Gives serialize deserialize method i at_hash o (params, response, e, d, c) =
      subst
        (λ r.
          Gives Good
            (runtime_call codec method r (some at_hash) >>= λ response.
              lift (map_err parse_error (deserialize response)))
            (ok o))
        (sym e)
        (subst
          (λ r.
            Gives Good
              (runtime_call codec method (ok params) (some at_hash) >>= λ response.
                lift (map_err parse_error (deserialize response)))
              (map_err parse_error r))
          d
          (>>=-Gives Good _ _ (ok response) (λ response. map_err parse_error (deserialize response))
            (runtime_call-Gives method params response at_hash c)
            (λ response. lift-Gives Good (map_err parse_error (deserialize response)))))

  -- The same before a step that reads the answer.
  pub call_then-Gives :
      {I O P : Type 0} (serialize : I → Result String Bytes) (deserialize : Bytes → Result String O)
      (method : String) (i : I) (at_hash : Hash) (o : O) (f : O → Io Error P)
      (g : O → Result Error P)
      → Calls codec server serialize deserialize method i at_hash o
      → ((x : O) → Gives Good (f x) (g x))
      → Gives Good
          (runtime_call codec method (serialize i) (some at_hash) >>= λ response.
            lift (map_err parse_error (deserialize response)) >>= f)
          (g o)
  call_then-Gives serialize deserialize method i at_hash o f g (params, response, e, d, c) next =
      subst
        (λ r.
          Gives Good
            (runtime_call codec method r (some at_hash) >>= λ response.
              lift (map_err parse_error (deserialize response)) >>= f)
            (g o))
        (sym e)
        (subst
          (λ r.
            Gives Good
              (runtime_call codec method (ok params) (some at_hash) >>= λ response.
                lift (map_err parse_error (deserialize response)) >>= f)
              (map_err parse_error r >>=? g))
          d
          (>>=-Gives Good _ _ (ok response)
            (λ response. map_err parse_error (deserialize response) >>=? g)
            (runtime_call-Gives method params response at_hash c)
            (λ response.
              >>=-Gives Good _ _ (map_err parse_error (deserialize response)) g
                (lift-Gives Good (map_err parse_error (deserialize response))) next)))
