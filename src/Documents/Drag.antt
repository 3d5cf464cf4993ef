-- ===== src/Documents/Drag.antt =====
-- Documents that are dragged onto a folder: features/documents/documentDrag.ts, and the drop of
-- FolderTree.tsx. `JSON.stringify` of a list of texts and `JSON.parse` are parameters.
use lesspaper_ngl.Prelude.Maps
use lesspaper_ngl.Ask.Citations.Laws.{written}
use lesspaper_ngl.Prelude.{
  All, Bool, List, Option, String, [], arith, if◌then◌else◌, is_some, length, ltb, map, nat_eq,
  none, nonempty, not, option_eq, or_default, or_text, refl, some, text_eq, true, ◌==◌, ◌||◌, ◌∷◌,
  ◌≡◌,
}
use lesspaper_ngl.Types.Json.{Items, Json, to_list}

-- `activeDocumentDragIds`, and what a `DataTransfer` holds under each type
pub record DragState : Type 0 where
  pub active_ids : Option (List String)
  pub transfer : List (String × String)

abbrev pub lesspaper_type : String
lesspaper_type = "application/x-lesspaper-ngl-document-ids"

abbrev pub folium_type : String
folium_type = "application/x-folium-document-ids"

-- the ids that a drag of this session holds
abbrev active : DragState → List String
active s = or_default s.active_ids []

unfoldable pub clear_document_drag_data : DragState → DragState
clear_document_drag_data s = record s { active_ids = none }

-- `dataTransferHasDocuments`, with a transfer
unfoldable pub data_transfer_has_documents : DragState → Bool
data_transfer_has_documents s =
    ltb 0 (length (active s))
    || (is_some (Maps.get s.transfer lesspaper_type) || is_some (Maps.get s.transfer folium_type))

-- the elements that are texts with at least one character
unfoldable pub text_ids : List Json → List String
text_ids [] = []
text_ids (Json.text s ∷ vs) = let rest = text_ids vs in if nonempty s then s ∷ rest else rest
text_ids (_ ∷ vs) = text_ids vs

module _ (stringify : List String → String) (parse : String → Option Json) where
  unfoldable pub set_document_drag_data : List String → DragState → DragState
  set_document_drag_data ids s = record {
    active_ids = some ids;
    transfer =
        Maps.put
          (Maps.put (Maps.put s.transfer lesspaper_type (stringify ids)) folium_type
            (stringify ids))
          "text/plain" (stringify ids);
  }

  -- `getData`, the empty text for a type that is not there
  abbrev get_data : DragState → String → String
  get_data s type = or_default (Maps.get s.transfer type) ""

  unfoldable pub get_document_drag_ids : DragState → List String
  unfolding text_ids
  get_document_drag_ids s =
      let raw =
        or_text (get_data s lesspaper_type)
          (or_text (get_data s folium_type) (get_data s "text/plain")) in
      if ltb 0 (length (active s))
      then active s
      else if not (nonempty raw)
      then []
      else elim (parse raw) [ some (Json.array vs) ↦ text_ids (to_list vs) | _ ↦ [] ]

  -- `handleDrop` of a folder: the state after it, and the ids that are dropped, if it is called
  unfoldable pub handle_drop : Bool → DragState → DragState × Option (List String)
  unfolding get_document_drag_ids clear_document_drag_data
  handle_drop can_drop s = if not can_drop then (s, none) else (
    clear_document_drag_data s,
    (let ids = get_document_drag_ids s in if length ids == 0 then none else some ids),
  )

  -- the transfer of a drag that came from another window
  abbrev pub from_elsewhere : DragState → DragState
  from_elsewhere s = record s { active_ids = none }

  text_ids-named :
      (ids : List String)
      → All (λ i. nonempty i ≡ true) ids
      → text_ids (map (λ i. Json.text i) ids) ≡ ids
  unfolding text_ids
  text_ids-named [] h = refl
  text_ids-named (i ∷ ids) (h, hs) = ground (arith, h, text_ids-named ids hs)

  get-set_document_drag_data :
      (s : DragState) (ids : List String)
      → Maps.get (set_document_drag_data ids s).transfer lesspaper_type ≡ some (stringify ids)
  unfolding set_document_drag_data
  get-set_document_drag_data s ids =
      let first = Maps.put s.transfer lesspaper_type (stringify ids) in
      let second = Maps.put first folium_type (stringify ids) in
      ground (
        arith,
        Maps.get-put s.transfer lesspaper_type lesspaper_type (stringify ids),
        Maps.get-put first folium_type lesspaper_type (stringify ids),
        Maps.get-put second "text/plain" lesspaper_type (stringify ids),
      )

  -- Documents that are dragged, at least one and none with an empty id, arrive where they are dropped, in
  -- the window of the drag and in another one, if JSON reads back the list of ids that it has written,
  -- as a text that is not empty. In both windows the drag counts as one of documents, and the drop in
  -- its own window ends it.
  pub handle_drop-set_document_drag_data :
      (vs : Items) (s : DragState) (ids : List String)
      → parse (stringify ids) ≡ some (Json.array vs)
      → to_list vs ≡ map (λ i. Json.text i) ids
      → nonempty (stringify ids) ≡ true
      → All (λ i. nonempty i ≡ true) ids
      → ltb 0 (length ids) ≡ true
      → let dragged = set_document_drag_data ids s in
        ((handle_drop true dragged).1 ≡ some ids)
        × ((handle_drop true (from_elsewhere dragged)).1 ≡ some ids)
        × ((handle_drop true dragged).0.active_ids ≡ none)
        × (data_transfer_has_documents dragged ≡ true)
        × (data_transfer_has_documents (from_elsewhere dragged) ≡ true)
  unfolding handle_drop get_document_drag_ids clear_document_drag_data data_transfer_has_documents
      set_document_drag_data
  handle_drop-set_document_drag_data vs s ids read same written named some_ids =
      let stored = get-set_document_drag_data s ids in
      let kept = text_ids-named ids named in
      ground (arith, read, same, written, some_ids, stored, kept)
