-- ===== src/Server/Middleware/Ids.antt =====
-- The request's id, from the client's header to the body of an error.
use text.Mathlib.Text.{◌==◌ as str_eq}
use text.Mathlib.TextEquality.{eq_iff}
use text.Mathlib.TextPositions.{eq_refl}
use internal_transfers_syste.Base.{
  ℕ, String, ◌≡◌, refl, ◌∙◌, ap, ◌≢◌, ◌⊎◌, inl, inr, false, none, some, List, [], ◌∷◌, ◌++◌,
  Bool-cases, if◌then◌else◌,
}
use internal_transfers_syste.Handler.Response.{
  Payload, failure, Writer, get_header, set_header, write_json, write_error,
}
use internal_transfers_syste.Handler.Failed.{write_json-status, write_json-body}
use internal_transfers_syste.Server.Middleware.{
  Request, HttpHandler, Ending, Platform, request_id_header, generate_request_id, identified,
  request_id_middleware,
}

-- A header that was set is there, and the others are as they were.
pub get_header-set_header :
    (key value : String) (headers : List (String × String))
    → get_header key (set_header key value headers) ≡ value
unfolding get_header set_header
get_header-set_header key value [] = rw (eq_refl key) refl
get_header-set_header key value ((k, v) ∷ headers) = elim (Bool-cases (str_eq k key)) [
  | inl here ↦ rw (here, eq_refl key) refl
  | inr there ↦ rw (there, there) (get_header-set_header key value headers)
]

pub get_header-set_header_other :
    (key other value : String) (headers : List (String × String))
    → str_eq other key ≡ false
    → get_header key (set_header other value headers) ≡ get_header key headers
unfolding get_header set_header
get_header-set_header_other key other value [] ne = rw ne refl
get_header-set_header_other key other value ((k, v) ∷ headers) ne =
    elim (Bool-cases (str_eq k other)) [
      | inl here ↦
          let same : str_eq k key ≡ false = ap (λ t. str_eq t key) ((eq_iff k other).0 here) ∙ ne in
          rw (here, ne, same) refl
      | inr there ↦ rw there (
          ap (λ t. if str_eq k key then v else t)
            (get_header-set_header_other key other value headers ne))
    ]

-- The writers of internal/handler/response.go keep the id in the headers.
write_json-header :
    (status : ℕ) (p : Payload) (out : Writer)
    → out.status ≡ none
    → get_header request_id_header (write_json status p out).headers
      ≡ get_header request_id_header out.headers
unfolding write_json
write_json-header status p out h = rw h (
    get_header-set_header_other request_id_header "X-Content-Type-Options" "nosniff" _ refl
    ∙ get_header-set_header_other request_id_header "Content-Type" _ out.headers refl)

-- An error that a handler writes to a response not yet begun, with the id in its header, has its
-- status, its code and message and the id in the body, and leaves the header.
pub write_error-id :
    (out : Writer) (status : ℕ) (code message id : String)
    → out.status ≡ none
    → get_header request_id_header out.headers ≡ id
    → ((write_error status code message out).status ≡ some status)
      × ((write_error status code message out).body
          ≡ out.body
            ++ (failure
                  (record { success = false; error = code; message = message; request_id = id })
                ∷ []))
      × (get_header request_id_header (write_error status code message out).headers ≡ id)
unfolding write_error
write_error-id out status code message id fresh named = (
  write_json-status _ _ out fresh,
  write_json-body _ _ out fresh
      ∙ ap
          (λ i.
            out.body
            ++ (failure
                  (record { success = false; error = code; message = message; request_id = i })
                ∷ []))
          named,
  write_json-header _ _ out fresh ∙ named,
)

module _ {Body World : Type 0} (P : Platform World) (r : Request Body) (out : Writer)
    (w : World) where
  -- The id of a request: the client's, or a new one.
  abbrev pub Issued : String → World → Type 0
  Issued id v =
      ((get_header request_id_header r.headers ≢ "")
        × (id ≡ get_header request_id_header r.headers)
        × (v ≡ w))
      ⊎ ((get_header request_id_header r.headers ≡ "")
          × (id ≡ (generate_request_id P w).0)
          × (v ≡ (generate_request_id P w).1))

  -- The next handler runs once, with the id in the context and in the response's header.
  abbrev pub Passed : HttpHandler Body World → Ending × Writer × World → Type 0
  Passed next x =
      (id : String) × (v : World) × (named : Writer) × Issued id v
      × (x ≡ next (record r { context_id = some id }) named v)
      × (get_header request_id_header named.headers ≡ id)
      × ((key : String)
          → str_eq request_id_header key ≡ false
          → get_header key named.headers ≡ get_header key out.headers)
      × (named.status ≡ out.status)
      × (named.body ≡ out.body)

  passed :
      (next : HttpHandler Body World) (issued : String × World)
      → Issued issued.0 issued.1
      → Passed next (identified P next r out issued)
  passed next (id, v) h = (
    id,
    v,
    record out { headers = set_header request_id_header id out.headers },
    h,
    refl,
    get_header-set_header request_id_header id out.headers,
    λ key ne. get_header-set_header_other key request_id_header id out.headers ne,
    refl,
    refl,
  )

  -- Whatever the next handler is, it runs once, with the client's id, or a new one where the client
  -- sent none, in the context and in the response's header; the response's other headers, its status and
  -- its body are as they were.
  pub request_id_middleware-Passed :
      (next : HttpHandler Body World) → Passed next (request_id_middleware P next r out w)
  unfolding request_id_middleware
  request_id_middleware-Passed next =
      elim (Bool-cases (str_eq (get_header request_id_header r.headers) "")) [
        | inl none_sent ↦
            rw none_sent
              (passed next (generate_request_id P w) (inr ((eq_iff _ _).0 none_sent, refl, refl)))
        | inr sent ↦ rw sent (
            passed next (get_header request_id_header r.headers, w)
              (inl ((λ e. cc ((eq_iff _ _).1 e, sent)), refl, refl)))
      ]
