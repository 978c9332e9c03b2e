-- ===== src/Graph.antt =====
-- mcps/microsoft/ms_graph/graph_client.py: a client of Microsoft Graph, as the functions that call it see
-- it. The service answers each request, in the light of those before it; `reply` is that answer, an
-- error where the client raises one. A function that sends requests is a Client: it takes the requests
-- that were sent, the latest first, and adds its own. The synchronous and the asynchronous client are
-- one here.
pub mod Upload
pub mod Pages
pub mod Delta
pub mod Workbook
use bond_mcps.Prelude.{
  ℕ, ◌≡◌, refl, ◌⊎◌, inl, inr, String, Bool, true, false, not, ◌&&◌, ◌||◌, List, [], ◌∷◌, Option,
  none, some, if◌then◌else◌, has_prefix, Bool-cases, arith,
}
use bond_mcps.Db.{Bytes}
use bond_mcps.JsonValue.{Json}

pub data Failure : Type 0 where
  -- the status, the code and the message of a GraphError
  graph_error : ℕ → String → String → Failure
  non_graph_url : Failure
  value_error : String → Failure
  -- an exception of httpx
  http_error : Failure
  -- Python's TypeError or AttributeError, where an answer has another shape
  type_error : Failure
  -- an EditError, with the index and the type of the operation
  edit_error : ℕ → String → Failure
  -- a loop of the model that ran out of rounds
  stuck : Failure

-- The failures that `except GraphError` does not catch
pub data IsNoGraphError : Failure → Type 0 where
  of_url : IsNoGraphError non_graph_url
  of_value : {s : String} → IsNoGraphError (value_error s)
  of_http : IsNoGraphError http_error
  of_type : IsNoGraphError type_error
  of_edit : {k : ℕ} {kind : String} → IsNoGraphError (edit_error k kind)
  of_rounds : IsNoGraphError stuck

pub data Request : Type 0 where
  -- the path, the parameters, and the workbook session
  get : String → List (String × String) → Option String → Request
  post : String → Option Json → Option String → Request
  patch : String → Json → Option String → Request
  put : String → Bytes → Request
  -- the pre-authenticated URL, the fragment, its first byte's position and the size of the whole
  put_range : String → Bytes → ℕ → ℕ → Request
  delete : String → Request
  delete_url : String → Request

pub data Outcome {ℓ} (A : Type ℓ) : Type ℓ where
  done : A → Outcome A
  failed : Failure → Outcome A

pub Outcome-cases {ℓ} :
    {A : Type ℓ} (r : Outcome A) → ((a : A) × (r ≡ done a)) ⊎ ((e : Failure) × (r ≡ failed e))
Outcome-cases (done a) = inl (a, refl)
Outcome-cases (failed e) = inr (e, refl)

-- How the service answers a request after the others; null stands for an empty body.
abbrev pub Service : Type 0
Service = List Request → Request → Outcome Json

abbrev pub Client : Type 0 → Type 0
Client A = List Request → Outcome A × List Request

module _ {A : Type 0} where
  abbrev pub answer : A → Client A
  answer a log = (done a, log)

  abbrev pub fail : Failure → Client A
  fail e log = (failed e, log)

infixl 5 ◌>>=◌ ◌>>◌
abbrev pub ◌>>=◌ : {A B : Type 0} → Client A → (A → Client B) → Client B
◌>>=◌ m f log = let (r, log') = m log in elim r [ done a ↦ f a log' | failed e ↦ (failed e, log') ]

abbrev pub ◌>>◌ : {A B : Type 0} → Client A → Client B → Client B
m >> k = m >>= λ _. k

-- `_check_graph_path`
unfoldable pub is_graph_path : String → Bool
is_graph_path path =
    has_prefix "https://graph.microsoft.com/v1.0/" path
    || (has_prefix "/" path && not (has_prefix "//" path))

-- A path below the Graph service, or a URL of it
abbrev pub IsGraphUrl : String → Type 0
IsGraphUrl path =
    (has_prefix "https://graph.microsoft.com/v1.0/" path ≡ true)
    ⊎ ((has_prefix "/" path ≡ true) × (has_prefix "//" path ≡ false))

pub is_graph_path-IsGraphUrl : (path : String) → is_graph_path path ≡ true → IsGraphUrl path
unfolding is_graph_path
is_graph_path-IsGraphUrl path h =
    elim (Bool-cases (has_prefix "https://graph.microsoft.com/v1.0/" path)) [
      | inl absolute ↦ inl absolute
      | inr other ↦
          let below : has_prefix "/" path ≡ true = ground (arith, h, other) in
          let no_host : has_prefix "//" path ≡ false = ground (arith, h, other) in
          inr (below, no_host)
    ]

module _ (reply : Service) where
  abbrev pub send : Request → Client Json
  send r log = (reply log r, r ∷ log)

  -- `client.get(path, params, headers)`
  unfoldable pub client_get : String → List (String × String) → Option String → Client Json
  client_get path params session =
      if is_graph_path path then send (get path params session) else fail non_graph_url

-- `try: m except Exception: cleanup; raise`
abbrev pub on_failure : {A : Type 0} → Client A → Client (Unit {0}) → Client A
on_failure m cleanup log =
    let (r, log') = m log in
    elim r [ done a ↦ (done a, log') | failed e ↦ (failed e, (cleanup log').1) ]

module _ {A : Type 0} (m : Client A) (cleanup : Client (Unit {0})) (log : List Request) where
  pub on_failure-done :
      (a : A) → (m log).0 ≡ done a → on_failure m cleanup log ≡ (done a, (m log).1)
  on_failure-done a h = rw (on_failure, h)

  pub on_failure-failed :
      (e : Failure)
      → (m log).0 ≡ failed e
      → on_failure m cleanup log ≡ (failed e, (cleanup (m log).1).1)
  on_failure-failed e h = rw (on_failure, h)
