-- ===== src/Application/Providers/Requests.antt =====
-- Any sequence of requests to provider.py, and the directories that it leaves alone.
use qiankun.Prelude.{
  ◌≡◌, refl, ap, ◌∙◌, String, false, not, ◌&&◌, List, [], ◌∷◌, is_some, Bool-cases, inl, inr,
}
use qiankun.Prelude.Exec.{>>=-Preserves}
use qiankun.Runtime.Registry.{lookup_text, has_provider}
use qiankun.Application.Providers.{
  Plugins, Loader, on_files, list, get, create, update, delete, reload, reload_registry, safe_read,
}
use qiankun.Application.Providers.Rollback.{safe_read-files}
use qiankun.Application.Providers.Names.{
  may_hold_provider, Untouched, create-Untouched, update-Untouched, delete-Untouched,
}

pub data Request : Type 0 where
  create_provider update_provider : String → String → Request
  delete_provider get_provider : String → Request
  list_providers reload_providers : Request

-- What a request leaves, whether it returns or raises.
unfoldable pub answer : Loader → Request → Plugins → Plugins
answer l (Request.create_provider name code) p = (create l name code p).1
answer l (Request.update_provider name code) p = (update l name code p).1
answer l (Request.delete_provider name) p = (delete l name p).1
answer l (Request.get_provider name) p = (get name p).1
answer l Request.list_providers p = (list l p).1
answer l Request.reload_providers p = (reload l p).1

unfoldable pub answer_all : Loader → List Request → Plugins → Plugins
unfolding answer
answer_all l [] p = p
answer_all l (r ∷ rs) p = answer_all l rs (answer l r p)

get-files : (name : String) (p : Plugins) → (get name p).1.files ≡ p.files
unfolding get
get-files name p =
    let HasFiles : Plugins → Type 0 = λ q. q.files ≡ p.files in
    elim (Bool-cases
      (not (has_provider p.registry name) && not (is_some (lookup_text name p.registry.issues)))) [
        | inl e ↦ rw e refl
        | inr e ↦ rw e (
            (>>=-Preserves HasFiles (on_files (safe_read name)) _ p
                (record { preserved = λ e. safe_read-files name p.files ∙ e })
                (λ code. record { preserved = λ e. e })).preserved
              refl)
      ]

answer-lookup_text :
    (l : Loader) (r : Request) (p : Plugins) (other : String)
    → may_hold_provider other ≡ false
    → lookup_text other (answer l r p).files ≡ lookup_text other p.files
unfolding answer list reload reload_registry Untouched
answer-lookup_text l (Request.create_provider name code) p other bad =
    (create-Untouched l other (lookup_text other p.files) bad name code p).preserved refl
answer-lookup_text l (Request.update_provider name code) p other bad =
    (update-Untouched l other (lookup_text other p.files) bad name code p).preserved refl
answer-lookup_text l (Request.delete_provider name) p other bad =
    (delete-Untouched l other (lookup_text other p.files) bad name p).preserved refl
answer-lookup_text l (Request.get_provider name) p other bad =
    ap (λ f. lookup_text other f) (get-files name p)
answer-lookup_text l Request.list_providers p other bad = refl
answer-lookup_text l Request.reload_providers p other bad = refl

-- Whatever requests to create, update, delete, read, list or reload providers follow each other, with
-- whatever names and sources: a directory of the providers package whose name is reserved or does
-- not have the form of a provider name stays as it is, and none is made.
pub answer_all-lookup_text :
    (l : Loader) (rs : List Request) (p : Plugins) (other : String)
    → may_hold_provider other ≡ false
    → lookup_text other (answer_all l rs p).files ≡ lookup_text other p.files
unfolding answer_all
answer_all-lookup_text l [] p other bad = refl
answer_all-lookup_text l (r ∷ rs) p other bad =
    answer_all-lookup_text l rs (answer l r p) other bad ∙ answer-lookup_text l r p other bad
