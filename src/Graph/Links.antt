-- ===== src/Graph/Links.antt =====
-- The pages that the adapter makes of a response.
use outlook_dictionary.Common.{◌+◌, ◌≡◌, refl, true, not, List, [], ◌∷◌, arith, length}
use outlook_dictionary.Folder.{DeltaPage, is_complete, truthy}
use outlook_dictionary.Graph.{Item, removed, message, Body, messages_of, removals_of, page_of}

-- A page that is the last one or can be continued, and that holds every item.
pub record IsLinked (body : Body) (page : DeltaPage) : Type 0 where
  pub last : is_complete page ≡ not page.has_more
  pub continued : page.has_more ≡ true → truthy page.next_continuation ≡ true
  pub items : length page.messages + length page.removals ≡ length body.value

items_split :
    (items : List Item) → length (messages_of items) + length (removals_of items) ≡ length items
unfolding messages_of removals_of
items_split [] = refl
items_split (removed id ∷ items) = omega (arith, items_split items)
items_split (message m ∷ items) = omega (arith, items_split items)

-- Every page of the adapter holds each item of the response as a message or as a removal, and
-- either is the last one or carries a continuation that is not empty.
pub page_of-IsLinked : (body : Body) → IsLinked body (page_of body)
unfolding page_of
page_of-IsLinked body = record {
  last = ground arith;
  continued = ground arith;
  items = items_split body.value;
}
