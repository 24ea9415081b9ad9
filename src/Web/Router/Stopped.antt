-- ===== src/Web/Router/Stopped.antt =====
-- A hook before a write that fails.
use velo_external_db.Base.{
  ℕ, String, ◌≡◌, refl, sym, ap, ◌∙◌, Option, some, List, [], ◌∷◌, ◌++◌, ok, err, ok-injective,
}
use velo_external_db.Commons.Errors.{Error}
use velo_external_db.Commons.Effects.{Exec, >>=-ok, ◌>>=◌}
use velo_external_db.Commons.Runtime.{Runtime}
use velo_external_db.Service.Storage.{SchemaProvider, DataProvider, NodeCache}
use velo_external_db.Service.Data.{ItemAnswer}
use velo_external_db.Web.Errors.{error_middleware}
use velo_external_db.Web.Hooks.{
  HookTable, DataAction, data_hooks_for_action, execute_hooks, execute_hook, find_hook, rethrown,
  execute_data_hooks_for, before_insert, before_update, before_remove, before_truncate,
}
use velo_external_db.Web.Router.{
  ItemsRequest, RemoveRequest, Response, error, handled, insert_items, update_items, remove_items,
  truncate_items,
}

-- The requests that change items, what they send and what they are answered with.
pub data Write : Type 0 where
  insertion updating removal truncation : Write

abbrev pub Sent : Write → Type 0
Sent insertion = ItemsRequest
Sent updating = ItemsRequest
Sent removal = RemoveRequest
Sent truncation = String

abbrev pub Answered : Write → Type 0
Answered insertion = List ItemAnswer
Answered updating = List ItemAnswer
Answered removal = List ItemAnswer
Answered truncation = Unit {0}

abbrev pub before : Write → DataAction
before insertion = before_insert
before updating = before_update
before removal = before_remove
before truncation = before_truncate

handled-stopped :
    {W A B : Type 0} (m : Exec W A) (f : A → Exec W B) (w : W) (e : Error) (after : W)
    → m w ≡ (err e, after)
    → handled (m >>= f) w ≡ (error (error_middleware e), after)
unfolding handled ◌>>=◌
handled-stopped m f w e after h = rw h refl

-- Hooks by name, up to one that fails.
module _ {W P : Type 0} (hooks : HookTable W P) where
  failing_hook :
      (name : String) (later : List String) (hook : P → Exec W (Option P)) (p : P) (e : Error)
      (w after : W)
      → find_hook name hooks ≡ some hook
      → hook p w ≡ (err e, after)
      → execute_hooks hooks (name ∷ later) p w ≡ (err (rethrown e), after)
  unfolding execute_hooks execute_hook ◌>>=◌
  failing_hook name later hook p e w after found h = rw (found, h) refl

  execute_hooks-stopped :
      (first : List String) (name : String) (later : List String) (hook : P → Exec W (Option P))
      (sent p : P) (e : Error) (w x after : W)
      → execute_hooks hooks first sent w ≡ (ok p, x)
      → find_hook name hooks ≡ some hook
      → hook p x ≡ (err e, after)
      → execute_hooks hooks (first ++ name ∷ later) sent w ≡ (err (rethrown e), after)
  unfolding execute_hooks ◌>>=◌
  execute_hooks-stopped [] name later hook sent p e w x after ran found h =
      let same : sent ≡ p = ok-injective (ap (λ y. y.0) ran) in
      let still : w ≡ x = ap (λ y. y.1) ran in
      ap (λ q. execute_hooks hooks (name ∷ later) q w) same
      ∙ (ap (execute_hooks hooks (name ∷ later) p) still
          ∙ failing_hook name later hook p e x after found h)
  execute_hooks-stopped (n ∷ first) name later hook sent p e w x after ran found h =
      let m = execute_hook hooks n sent in
      let (q, here, same, rest) =
        >>=-ok m (λ y. execute_hooks hooks first y) w (ap (λ y. y.0) ran) in
      rw here
        (execute_hooks-stopped first name later hook q p e (m w).1 x after (sym same ∙ ran) found h)

module _ {S C : Type 0} (r : Runtime) (provider : SchemaProvider S) (cache : NodeCache C)
    (storage : DataProvider S) where
  -- The handler of a write; `draws` is the number of identifiers and times drawn before.
  abbrev pub respond :
      (k : Write)
      → HookTable (S × C) (Sent k)
      → HookTable (S × C) (Answered k)
      → ℕ
      → Sent k
      → S × C
      → Response (Answered k) × (S × C)
  respond insertion hooks last draws sent =
      handled (insert_items r provider cache storage hooks last draws sent)
  respond updating hooks last draws sent =
      handled (update_items r provider cache storage hooks last sent)
  respond removal hooks last draws sent =
      handled (remove_items r provider cache storage hooks last sent)
  respond truncation hooks last draws sent =
      handled (truncate_items r provider cache storage hooks last sent)

  respond-stopped :
      (k : Write) (hooks : HookTable (S × C) (Sent k)) (last : HookTable (S × C) (Answered k))
      (draws : ℕ) (sent : Sent k) (e : Error) (w after : S × C)
      → execute_data_hooks_for hooks (before k) sent w ≡ (err e, after)
      → respond k hooks last draws sent w ≡ (error (error_middleware e), after)
  unfolding insert_items update_items remove_items truncate_items
  respond-stopped insertion hooks last draws sent e w after h =
      handled-stopped (execute_data_hooks_for hooks before_insert sent) _ w e after h
  respond-stopped updating hooks last draws sent e w after h =
      handled-stopped (execute_data_hooks_for hooks before_update sent) _ w e after h
  respond-stopped removal hooks last draws sent e w after h =
      handled-stopped (execute_data_hooks_for hooks before_remove sent) _ w e after h
  respond-stopped truncation hooks last draws sent e w after h =
      handled-stopped (execute_data_hooks_for hooks before_truncate sent) _ w e after h

  -- If, for a request to insert, to update, to remove or to truncate, one of the three hooks before
  -- the action fails on the payload that the hooks before it leave, then the request is answered with
  -- the error as the hooks pass it on, in the state that the hook left, whatever the other hooks are:
  -- neither they nor the service are asked.
  pub failed_hook_stops :
      (k : Write) (hooks : HookTable (S × C) (Sent k)) (last : HookTable (S × C) (Answered k))
      (draws : ℕ) (first later : List String) (name : String)
      (hook : Sent k → Exec (S × C) (Option (Sent k))) (sent p : Sent k) (e : Error)
      (w x after : S × C)
      → data_hooks_for_action (before k) ≡ first ++ name ∷ later
      → execute_hooks hooks first sent w ≡ (ok p, x)
      → find_hook name hooks ≡ some hook
      → hook p x ≡ (err e, after)
      → respond k hooks last draws sent w ≡ (error (error_middleware (rethrown e)), after)
  unfolding execute_data_hooks_for
  failed_hook_stops k hooks last draws first later name hook sent p e w x after names ran found h =
      respond-stopped k hooks last draws sent (rethrown e) w after (
        ap (λ ns. execute_hooks hooks ns sent w) names
        ∙ execute_hooks-stopped hooks first name later hook sent p e w x after ran found h)
