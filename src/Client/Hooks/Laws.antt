-- ===== src/Client/Hooks/Laws.antt =====
-- What the mutations of lib/api/hooks.ts leave to be fetched again, and what they do to the session.
-- react-query's match of a key with the keys in its cache is a parameter.
use lesspaper_ngl.Client.Csrf.{
  CsrfState, clear_csrf_token, get_csrf_token, read_cookie, set_csrf_token,
}
use lesspaper_ngl.Client.Hooks.{ApiCall, Effect, KeyPart, Mutation}
use lesspaper_ngl.Client.Hooks.Ai.{use_accept_suggestion, use_reject_suggestion}
use lesspaper_ngl.Client.Hooks.Auth.{
  SessionReply, read_session, use_change_password, use_login, use_logout, use_register,
}
use lesspaper_ngl.Client.Hooks.Changes.{
  use_bulk_action, use_delete_document, use_move_document, use_process_inbox_documents,
  use_remove_from_queue, use_reprocess_embeddings, use_reprocess_suggestions, use_restore_document,
  use_retry_ocr, use_retry_preflight, use_trash_document, use_update_document_metadata,
  use_upload_document,
}
use lesspaper_ngl.Client.Hooks.Folders.{
  use_create_folder, use_delete_folder, use_empty_trash, use_purge_folder, use_restore_folder,
  use_trash_folder, use_update_folder,
}
use lesspaper_ngl.Client.Http.{clear_session, handle_session_response}
use lesspaper_ngl.Prelude.{
  Bool, List, Option, String, [], any, arith, false, none, nonempty, some, true, ◌∷◌, ◌≡◌,
}
use lesspaper_ngl.Types.Document.{Document}
use lesspaper_ngl.Types.Job.{Suggestion}
use lesspaper_ngl.Types.Json.{Json}

-- the mutations of documents, folders, the trash and suggestions, each with what its hook gets and what
-- the server answers
pub data Change : Type 0 where
  update_metadata move : String × Json → Document → Change
  trash_document restore_document retry_ocr reprocess_embeddings reprocess_suggestions
        retry_preflight :
      String → Document → Change
  upload : String × Option String → Document → Change
  delete_document trash_folder restore_folder purge_folder : String → Json → Change
  bulk_action create_folder : Json → Json → Change
  process remove_from_queue : List String → Json → Change
  update_folder delete_folder : String × Json → Json → Change
  empty_trash : Unit {0} → Json → Change
  accept_suggestion reject_suggestion : String → Suggestion → Change

-- a request, and what is done once it has succeeded
pub record Sent : Type 0 where
  pub call : ApiCall
  pub effects : List Effect

abbrev pub mutate : {Vars Reply : Type 0} → Mutation Vars Reply → Vars → Reply → Sent
mutate m vars reply = record { call = m.mutation_fn vars; effects = m.on_success reply vars }

unfoldable pub sent_by : Change → Sent
unfolding use_update_document_metadata use_move_document use_trash_document use_restore_document
    use_retry_ocr use_reprocess_embeddings use_reprocess_suggestions use_retry_preflight
    use_upload_document use_delete_document use_bulk_action use_process_inbox_documents
    use_remove_from_queue use_create_folder use_update_folder use_delete_folder use_trash_folder
    use_restore_folder use_purge_folder use_empty_trash use_accept_suggestion use_reject_suggestion
sent_by (Change.update_metadata vars reply) = mutate use_update_document_metadata vars reply
sent_by (Change.move vars reply) = mutate use_move_document vars reply
sent_by (Change.trash_document vars reply) = mutate use_trash_document vars reply
sent_by (Change.restore_document vars reply) = mutate use_restore_document vars reply
sent_by (Change.retry_ocr vars reply) = mutate use_retry_ocr vars reply
sent_by (Change.reprocess_embeddings vars reply) = mutate use_reprocess_embeddings vars reply
sent_by (Change.reprocess_suggestions vars reply) = mutate use_reprocess_suggestions vars reply
sent_by (Change.retry_preflight vars reply) = mutate use_retry_preflight vars reply
sent_by (Change.upload vars reply) = mutate use_upload_document vars reply
sent_by (Change.delete_document vars reply) = mutate use_delete_document vars reply
sent_by (Change.bulk_action vars reply) = mutate use_bulk_action vars reply
sent_by (Change.process vars reply) = mutate use_process_inbox_documents vars reply
sent_by (Change.remove_from_queue vars reply) = mutate use_remove_from_queue vars reply
sent_by (Change.create_folder vars reply) = mutate use_create_folder vars reply
sent_by (Change.update_folder vars reply) = mutate use_update_folder vars reply
sent_by (Change.delete_folder vars reply) = mutate use_delete_folder vars reply
sent_by (Change.trash_folder vars reply) = mutate use_trash_folder vars reply
sent_by (Change.restore_folder vars reply) = mutate use_restore_folder vars reply
sent_by (Change.purge_folder vars reply) = mutate use_purge_folder vars reply
sent_by (Change.empty_trash vars reply) = mutate use_empty_trash vars reply
sent_by (Change.accept_suggestion vars reply) = mutate use_accept_suggestion vars reply
sent_by (Change.reject_suggestion vars reply) = mutate use_reject_suggestion vars reply

abbrev pub path_of : ApiCall → String
path_of (ApiCall.get path params) = path
path_of (ApiCall.post path body) = path
path_of (ApiCall.patch path body) = path
path_of (ApiCall.delete path body) = path
path_of (ApiCall.upload path fields) = path

abbrev pub is_delete : ApiCall → Bool
is_delete (ApiCall.delete path body) = true
is_delete _ = false

module _ (matches : List KeyPart → List KeyPart → Bool) where
  abbrev pub invalidates : List KeyPart → Effect → Bool
  invalidates key (Effect.invalidate_queries k) = matches k key
  invalidates key _ = false

  -- the cached queries whose key begins with a name are fetched again after the change
  abbrev pub renews : Change → String → List KeyPart → Bool
  renews c name rest = any (λ e. invalidates (KeyPart.name name ∷ rest) e) (sent_by c).effects

-- what the effects do to the token of the session
unfoldable pub on_effects : List Effect → CsrfState → CsrfState
on_effects [] s = s
on_effects (Effect.handle_session token ∷ effects) s =
    on_effects effects (handle_session_response token s)
on_effects (Effect.clear_session ∷ effects) s = on_effects effects (clear_session s)
on_effects (e ∷ effects) s = on_effects effects s

abbrev pub is_clear : Effect → Bool
is_clear Effect.clear = true
is_clear _ = false

-- Logging in and registering give the client the token of the new session, which the next request
-- sends; logging out and changing the password forget the token, so that the cookie decides again,
-- and empty the cache; a session that cannot be read forgets the token.
pub on_effects-session :
    (decode : String → String) (session : SessionReply) (reply data_sent : Json) (s : CsrfState)
    → nonempty session.csrf_token ≡ true
    → let token_after =
        λ (effects : List Effect). (get_csrf_token decode (on_effects effects s)).0 in
      let from_cookie = read_cookie decode "folium_csrf" s.cookie in
      (token_after (use_login.on_success session data_sent) ≡ some session.csrf_token)
      × (token_after (use_register.on_success session data_sent) ≡ some session.csrf_token)
      × (token_after (read_session (some session)).1 ≡ some session.csrf_token)
      × (token_after (read_session none).1 ≡ from_cookie)
      × (token_after (use_logout.on_success reply tt) ≡ from_cookie)
      × (token_after (use_change_password.on_success reply data_sent) ≡ from_cookie)
      × (any is_clear (use_logout.on_success reply tt) ≡ true)
      × (any is_clear (use_change_password.on_success reply data_sent) ≡ true)
unfolding on_effects use_login use_register use_logout use_change_password read_session
    handle_session_response clear_session set_csrf_token clear_csrf_token get_csrf_token
on_effects-session decode session reply data_sent s named = ground (arith, named)
