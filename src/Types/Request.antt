-- ===== src/Types/Request.antt =====
-- The parameters of the list, search and ask requests.
use lesspaper_ngl.Prelude.{
  Bool, Eq, List, Option, String, false, nat_eq, option_eq, text_eq, true, ℕ,
}
use lesspaper_ngl.Types.Document.{InboxStatus, inbox_status_eq}

pub data SearchMode : Type 0 where
  keyword semantic hybrid : SearchMode

pub data SortField : Type 0 where
  added_date title modified_date created_date : SortField

pub data SortOrder : Type 0 where
  asc desc : SortOrder

abbrev search_mode_beq : SearchMode → SearchMode → Bool
search_mode_beq SearchMode.keyword SearchMode.keyword = true
search_mode_beq SearchMode.semantic SearchMode.semantic = true
search_mode_beq SearchMode.hybrid SearchMode.hybrid = true
search_mode_beq _ _ = false

abbrev sort_field_beq : SortField → SortField → Bool
sort_field_beq SortField.added_date SortField.added_date = true
sort_field_beq SortField.title SortField.title = true
sort_field_beq SortField.modified_date SortField.modified_date = true
sort_field_beq SortField.created_date SortField.created_date = true
sort_field_beq _ _ = false

abbrev sort_order_beq : SortOrder → SortOrder → Bool
sort_order_beq SortOrder.asc SortOrder.asc = true
sort_order_beq SortOrder.desc SortOrder.desc = true
sort_order_beq _ _ = false

instance abbrev pub search_mode_eq : Eq SearchMode
search_mode_eq = record { beq = search_mode_beq }

instance abbrev pub sort_field_eq : Eq SortField
sort_field_eq = record { beq = sort_field_beq }

instance abbrev pub sort_order_eq : Eq SortOrder
sort_order_eq = record { beq = sort_order_beq }

pub record DocumentListParams : Type 0 where
  pub folder_id : Option String
  pub include_descendants : Option Bool
  pub inbox : Option Bool
  pub inbox_status : Option InboxStatus
  pub trashed : Option Bool
  pub unprocessed : Option Bool
  pub tag_ids : Option (List String)
  pub q : Option String
  pub page : Option ℕ
  pub page_size : Option ℕ
  pub sort : Option SortField
  pub order : Option SortOrder

-- The fields that the search request and the snapshot of a search have in common.
pub record SearchScope : Type 0 where
  pub mode : Option SearchMode
  pub folder_id : Option String
  pub include_descendants : Option Bool
  pub folder_ids : Option (List String)
  pub tag_ids : Option (List String)
  pub document_type_id : Option String
  pub correspondent_id : Option String
  pub mime_type : Option String
  pub is_archived : Option Bool
  pub inbox : Option Bool
  pub date_from : Option String
  pub date_to : Option String
  pub document_indexed : Option Bool
  pub has_embeddings : Option Bool
  pub unprocessed : Option Bool

pub record SearchRequest : Type 0 where
  pub query : Option String
  pub scope : SearchScope
  pub page : Option ℕ
  pub page_size : Option ℕ

pub record SearchScopeSnapshot : Type 0 where
  pub query : String
  pub scope : SearchScope
