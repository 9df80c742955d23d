-- ===== src/Web/ListStates.antt =====
-- apps/web/src/components/ListStates.tsx and LoadingScreen.tsx: what stands for a list that is not there (`LoadingSkeleton` has neither text nor control), and what a
-- page knows of a query of the query library.
use morphia.Common.{ℕ, String, Bool, Option, none, some, [], ◌∷◌, nat_eq}
use morphia.Common.View.{View, text, button}

-- An ApiError, or another.
pub data QueryError : Type 0 where
  api_error : (status : ℕ) (message : String) → QueryError
  other_error : QueryError

-- `useQuery`; an error can stand beside data of an earlier request.
pub record Query {ℓ} (A : Type ℓ) : Type ℓ where
  pub is_loading : Bool
  pub error : Option QueryError
  pub data_of : Option A

-- `error instanceof ApiError ? error.message : fallback`
unfoldable pub message_of : (fallback : String) → QueryError → String
message_of fallback (api_error status message) = message
message_of fallback other_error = fallback

-- `isError && error instanceof ApiError && error.status === 404`
unfoldable pub is_not_implemented : Option QueryError → Bool
is_not_implemented (some (api_error status message)) = nat_eq status 404
is_not_implemented _ = Bool.false

-- `EmptyState`
unfoldable pub empty_state :
    {A : Type 0} → (title description : String) → (action : View A) → View A
empty_state title description action = text title ∷ text description ∷ action

-- `ErrorState` with `onRetry`
unfoldable pub error_state : {A : Type 0} → (message : String) → (on_retry : A) → View A
error_state message on_retry = text message ∷ button "Retry" Bool.false on_retry ∷ []

-- `{isError && <ErrorState …/>}`
unfoldable pub query_error :
    {A : Type 0} → (fallback : String) → (on_retry : A) → Option QueryError → View A
unfolding error_state message_of
query_error fallback on_retry none = []
query_error fallback on_retry (some e) = error_state (message_of fallback e) on_retry

-- `LoadingScreen`
unfoldable pub loading_screen : {A : Type 0} → View A
loading_screen = text "Loading..." ∷ []
