-- ===== src/Board/Ring.antt =====
-- src/board/ring.h: the queues of the boards that run one task.
-- The three template parameters are arguments; `items` is a list of `depth` elements.
pub mod Queue
use matrix_faces.Common.{
  ℕ, ◌+◌, ◌-◌, ◌%◌, Bool, true, false, not, List, Option, none, some, leb, ◌==◌, if◌then◌else◌,
  length, get_elem?, set,
}

pub record Ring (T : Type 0) : Type 0 where
  pub items : List T
  pub head : ℕ
  pub count : ℕ

module _ {T : Type 0} (depth : ℕ) where
  -- The write behind the last element.
  unfoldable pub put : Ring T → T → Ring T
  put r item = record r {
    items = set r.items ((r.head + r.count) % depth) item;
    count = r.count + 1;
  }

  -- `post`.
  unfoldable pub post : Bool → Ring T → T → Bool × Ring T
  unfolding put
  post drop_oldest r item =
      if leb depth r.count
      then (if not drop_oldest
          then (false, r)
          else (false, put (record r { head = (r.head + 1) % depth; count = r.count - 1 }) item))
      else (true, put r item)

  -- `take`: what is written to `out`, if it returns true.
  unfoldable pub take : Ring T → Option T × Ring T
  take r =
      if r.count == 0
      then (none, r)
      else (get_elem? r.items r.head, record r { head = (r.head + 1) % depth; count = r.count - 1 })

  -- `free`, on uint8_t.
  unfoldable pub free : Ring T → ℕ
  free r = (depth - r.count) % 256

-- `clear`.
unfoldable pub clear : {T : Type 0} → Ring T → Ring T
clear r = record r { head = 0; count = 0 }
