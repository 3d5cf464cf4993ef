-- ===== src/Types/Ask.antt =====
-- Questions about documents: the request, the answer with its citations, and the kept conversation.
use lesspaper_ngl.Prelude.{
  Bool, Eq, List, Option, String, false, nat_eq, option_eq, text_eq, true, ℕ,
}
use lesspaper_ngl.Types.Request.{SearchScopeSnapshot}

pub data AskScope : Type 0 where
  document documents folder folder_tree search library : AskScope

pub record AskRequest : Type 0 where
  pub question : String
  pub scope : Option AskScope
  pub document_id : Option String
  pub document_ids : Option (List String)
  pub folder_id : Option String
  pub search_query : Option String
  pub search : Option SearchScopeSnapshot
  pub confirm_remote : Option Bool

pub record Citation : Type 0 where
  pub document_id : String
  pub page_number : Option ℕ
  pub chunk_id : String
  pub title : String
  pub quote : Option String
  pub display_number : Option ℕ

pub record AskResponse : Type 0 where
  pub answer : String
  pub citations : List Citation
  pub passages : List Citation
  pub provider : Option String
  pub model : Option String
  pub privacy_mode : String
  pub is_local : Bool
  pub insufficient_evidence : Bool
  pub conversation_id : Option String
  pub user_message_id : Option String
  pub assistant_message_id : Option String
  pub persist_failed : Option Bool

pub record AskCitationSnapshot : Type 0 where
  pub display_number : ℕ
  pub chunk_id : String
  pub document_id : String
  pub page_number : Option ℕ
  pub title : Option String
  pub quote : Option String

pub data Role : Type 0 where
  user assistant : Role

abbrev role_beq : Role → Role → Bool
role_beq Role.user Role.user = true
role_beq Role.assistant Role.assistant = true
role_beq _ _ = false

instance abbrev pub role_eq : Eq Role
role_eq = record { beq = role_beq }

pub record AskMessage : Type 0 where
  pub id : String
  pub role : Role
  pub content : String
  pub citations : List AskCitationSnapshot
  pub created_at : String
