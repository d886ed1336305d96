-- ===== src/Links.antt =====
-- The intrusive circular doubly linked list of labcode/lab8/libs/list.h. A list entry is known by
-- a number, its address; the two pointers of every entry stand in one store.
pub mod Ring
pub mod Add
pub mod Del
pub mod Frame
pub mod Replace
use oslabcode.Prelude.{ℕ, Bool, ◌==◌, update}

-- `list_entry_t` at every address.
pub record Links : Type 0 where
  pub prev : ℕ → ℕ
  pub next : ℕ → ℕ

pub set_prev : Links → ℕ → ℕ → Links
set_prev s e v = record s { prev = update s.prev e v }

pub set_next : Links → ℕ → ℕ → Links
set_next s e v = record s { next = update s.next e v }

unfoldable pub list_init : Links → ℕ → Links
unfolding set_prev set_next
list_init s elm = set_prev (set_next s elm elm) elm elm

-- `__list_add`: the chained assignment writes `next->prev` before `prev->next`.
unfoldable pub link_between : Links → (elm before after : ℕ) → Links
unfolding set_prev set_next
link_between s elm before after =
    let s1 = set_next (set_prev s after elm) before elm in
    set_prev (set_next s1 elm after) elm before

unfoldable pub list_add_before : Links → (listelm elm : ℕ) → Links
unfolding link_between
list_add_before s listelm elm = link_between s elm (s.prev listelm) listelm

unfoldable pub list_add_after : Links → (listelm elm : ℕ) → Links
unfolding link_between
list_add_after s listelm elm = link_between s elm listelm (s.next listelm)

unfoldable pub list_add : Links → (listelm elm : ℕ) → Links
unfolding list_add_after
list_add s listelm elm = list_add_after s listelm elm

-- `__list_del`
unfoldable pub unlink_between : Links → (before after : ℕ) → Links
unfolding set_prev set_next
unlink_between s before after = set_prev (set_next s before after) after before

unfoldable pub list_del : Links → ℕ → Links
unfolding unlink_between
list_del s listelm = unlink_between s (s.prev listelm) (s.next listelm)

unfoldable pub list_del_init : Links → ℕ → Links
unfolding list_del list_init
list_del_init s listelm = list_init (list_del s listelm) listelm

unfoldable pub list_empty : Links → ℕ → Bool
list_empty s list = s.next list == list

unfoldable pub list_next : Links → ℕ → ℕ
list_next s listelm = s.next listelm

unfoldable pub list_prev : Links → ℕ → ℕ
list_prev s listelm = s.prev listelm
