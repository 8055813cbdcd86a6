-- ===== src/Board/Ring/Queue.antt =====
-- src/board/ring.h: the ring is a bounded queue.
use matrix_faces.Common.{
  ◌⊎◌, inl, inr, Bool-cases, ltb, ltb→lt, leb→le, ℕ, zero, suc, ◌+◌, ◌-◌, ◌%◌, ◌<◌, ◌≤◌, ◌≡◌, ◌≢◌,
  refl, sym, ap, ap₂, subst, ◌∙◌, arith, Bool, true, false, not, List, [], ◌∷◌, ◌++◌, Option, none,
  some, leb, ◌==◌, if◌then◌else◌, length, get_elem?, set, length-set, get_elem?-set_self,
  get_elem?-set_ne,
}
use native.Mathlib.Nat.{mod-eq_of_lt, add-mod_right, mod-lt}
use matrix_faces.Board.Ring.{Ring, put, post, take}

module _ (depth : ℕ) where
  -- The remainder of a position that has gone round once at most.
  mod_once :
      (a : ℕ)
      → a < depth + depth
      → ((a % depth ≡ a) × (a < depth)) ⊎ ((a % depth + depth ≡ a) × (depth ≤ a))
  mod_once a h = elim (Bool-cases (ltb a depth)) [
    | inl below ↦ inl (mod-eq_of_lt (ltb→lt a depth below), ltb→lt a depth below)
    | inr beyond ↦
        let past : depth ≤ a = ground arith in
        let back : a - depth + depth ≡ a = omega (arith, past) in
        let same : a % depth ≡ a - depth =
          ap (λ n. n % depth) (sym back)
          ∙ add-mod_right (a - depth) depth
          ∙ mod-eq_of_lt (omega (arith, past, h)) in
        inr (omega (arith, same, past), past)
  ]

  -- `pos` lies `d` places behind `head`.
  abbrev Behind : ℕ → ℕ → ℕ → Type 0
  Behind head d pos = (head + d ≡ pos) ⊎ (head + d ≡ pos + depth)

  Behind-mod : (head d : ℕ) → head < depth → d < depth → Behind head d ((head + d) % depth)
  Behind-mod head d h hd = elim (mod_once (head + d) (omega (arith, h, hd))) [
    | inl (e, lt) ↦ inl (sym e)
    | inr (e, le) ↦ inr (sym e)
  ]

  Behind-next :
      (head d pos : ℕ)
      → head < depth
      → pos < depth
      → suc d < depth
      → Behind head (suc d) pos
      → Behind ((head + 1) % depth) d pos
  Behind-next head d pos h hp hd b = elim (mod_once (head + 1) (omega (arith, h, hd))) [
    | inl (e, lt) ↦ elim b [
      | inl near ↦ inl (omega (arith, e, near))
      | inr far ↦ inr (omega (arith, e, far))
    ]
    | inr (e, le) ↦ elim b [
      | inl near ↦ absurd (omega (arith, e, le, near, hp))
      | inr far ↦ inl (omega (arith, e, far))
    ]
  ]

module _ {T : Type 0} (depth : ℕ) where
  abbrev pub front : Option T → List T → List T
  front none q = []
  front (some x) q = x ∷ q

  -- The elements from a position on, in the order in which they leave.
  pub contents : List T → ℕ → ℕ → List T
  contents items head zero = []
  contents items head (suc n) = front (get_elem? items head) (contents items ((head + 1) % depth) n)

  abbrev pub queue : Ring T → List T
  queue r = contents r.items r.head r.count

  abbrev pub IsValid : Ring T → Type 0
  IsValid r = (length r.items ≡ depth) × (r.head < depth) × (r.count ≤ depth)

  get_some : (items : List T) (i : ℕ) → i < length items → (x : T) × (get_elem? items i ≡ some x)
  get_some [] i h = elim h [ ]
  get_some (x ∷ items) zero h = (x, refl)
  get_some (x ∷ items) (suc i) h = get_some items i (omega arith)

  -- Writing behind the elements does not touch them.
  contents-set-Behind :
      (n d : ℕ) (items : List T) (head pos : ℕ) (v : T)
      → head < depth
      → pos < depth
      → d < depth
      → n ≤ d
      → Behind depth head d pos
      → contents (set items pos v) head n ≡ contents items head n
  unfolding contents
  contents-set-Behind zero d items head pos v h hp hd hn b = refl
  contents-set-Behind (suc n) zero items head pos v h hp hd hn b = absurd (omega (arith, hn))
  contents-set-Behind (suc n) (suc d) items head pos v h hp hd hn b =
      let apart : pos ≢ head =
        λ e. elim b [ inl near ↦ omega (arith, e, near) | inr far ↦ omega (arith, e, far, hd) ] in
      let rest =
        contents-set-Behind n d items ((head + 1) % depth) pos v (mod-lt _ (omega (arith, h))) hp
          (omega (arith, hd)) (omega (arith, hn)) (Behind-next depth head d pos h hp hd b) in
      ap₂ front (get_elem?-set_ne items pos head v apart) rest

  -- The element behind the others is the last to leave.
  contents_last :
      (n : ℕ) (items : List T) (head pos : ℕ) (v : T)
      → length items ≡ depth
      → head < depth
      → pos < depth
      → n < depth
      → Behind depth head n pos
      → get_elem? items pos ≡ some v
      → contents items head (suc n) ≡ contents items head n ++ v ∷ []
  unfolding contents
  contents_last zero items head pos v size h hp hn b at =
      let here : pos ≡ head = elim b [
        | inl near ↦ omega (arith, near)
        | inr far ↦ absurd (omega (arith, far, h))
      ] in
      ap (λ x. front x []) (ap (get_elem? items) (sym here) ∙ at)
  contents_last (suc n) items head pos v size h hp hn b at =
      let (x, first) = get_some items head (omega (arith, size, h)) in
      let rest =
        contents_last n items ((head + 1) % depth) pos v size (mod-lt _ (omega (arith, h))) hp
          (omega (arith, hn)) (Behind-next depth head n pos h hp hn b) at in
      ap₂ front first rest
      ∙ ap (λ y. front y (contents items ((head + 1) % depth) n) ++ v ∷ []) (sym first)

  queue-put :
      (r : Ring T) (item : T)
      → IsValid r
      → r.count < depth
      → queue (put depth r item) ≡ queue r ++ item ∷ []
  unfolding put
  queue-put r item (size, h, few) room =
      let pos = (r.head + r.count) % depth in
      let pos_fits : pos < depth = mod-lt _ (omega (arith, h)) in
      let behind = Behind-mod depth r.head r.count h room in
      subst (λ n. contents (set r.items pos item) r.head n ≡ queue r ++ item ∷ []) (omega arith)
        (contents_last r.count (set r.items pos item) r.head pos item
            (length-set r.items pos item ∙ size) h pos_fits room behind
            (get_elem?-set_self r.items pos item (omega (arith, size, pos_fits)))
          ∙ ap (λ q. q ++ item ∷ [])
              (contents-set-Behind r.count r.count r.items r.head pos item h pos_fits room
                (omega arith) behind))

  contents_next :
      (n head : ℕ) (items : List T)
      → (n == 0) ≡ false
      → contents items head n
        ≡ front (get_elem? items head) (contents items ((head + 1) % depth) (n - 1))
  unfolding contents
  contents_next zero head items h = cc
  contents_next (suc n) head items h =
      ap (λ k. front (get_elem? items head) (contents items ((head + 1) % depth) k)) (omega arith)

  contents_empty : (n head : ℕ) (items : List T) → (n == 0) ≡ true → contents items head n ≡ []
  unfolding contents
  contents_empty zero head items h = refl
  contents_empty (suc n) head items h = absurd (ground arith)

  -- On a well-formed ring, which stays one, what `take` hands out is the first element, and the others stay in order; it hands out nothing
  -- exactly when the queue is empty.
  pub take-queue :
      (r : Ring T)
      → IsValid r
      → let (out, r') = take depth r in IsValid r' × (queue r ≡ front out (queue r'))
  unfolding take
  take-queue r (size, h, few) = elim (Bool-cases (r.count == 0)) [
    | inl empty ↦ rw (empty, take) ((size, h, few), contents_empty r.count r.head r.items empty)
    | inr some_left ↦
        rw (some_left, take)
          (
            (size, mod-lt _ (omega (arith, h)), omega (arith, few)),
            contents_next r.count r.head r.items some_left,
          )
  ]

  put-IsValid : (r : Ring T) (item : T) → IsValid r → r.count < depth → IsValid (put depth r item)
  unfolding put
  put-IsValid r item (size, h, few) room =
      (length-set r.items ((r.head + r.count) % depth) item ∙ size, h, omega (arith, room))

  abbrev pub is_full : Ring T → Bool
  is_full r = leb depth r.count

  abbrev pub tail_of : List T → List T
  tail_of [] = []
  tail_of (x ∷ q) = q

  -- The queue behind `post`: an item that finds room is put behind the others; in a full queue,
  -- a command is refused, and an event takes the place of the oldest.
  abbrev pub posted : Bool → Bool → List T → T → List T
  posted full drop_oldest q item =
      if full then (if drop_oldest then tail_of q ++ item ∷ [] else q) else q ++ item ∷ []

  -- A ring whose oldest element is dropped.
  abbrev dropped : Ring T → Ring T
  dropped r = record r { head = (r.head + 1) % depth; count = r.count - 1 }

  dropped-IsValid :
      (r : Ring T) → IsValid r → is_full r ≡ true → IsValid (dropped r) × (r.count - 1 < depth)
  dropped-IsValid r (size, h, few) full =
      let filled : depth ≤ r.count = leb→le depth r.count full in
      ((size, mod-lt _ (omega (arith, h)), omega (arith, few)), omega (arith, h, few, filled))

  queue-dropped :
      (r : Ring T) → IsValid r → is_full r ≡ true → queue (dropped r) ≡ tail_of (queue r)
  queue-dropped r (size, h, few) full =
      let filled : depth ≤ r.count = leb→le depth r.count full in
      let some_left : (r.count == 0) ≡ false = ground (arith, h, filled) in
      let (x, first) = get_some r.items r.head (omega (arith, size, h)) in
      ap (λ y. tail_of (front y (queue (dropped r)))) (sym first)
      ∙ ap tail_of (sym (contents_next r.count r.head r.items some_left))

  -- On a well-formed ring, `post` keeps it well-formed, puts the item behind the others if there is room, and in a
  -- full ring does what the last template parameter says; it returns true if there was room.
  pub post-posted :
      (drop_oldest : Bool) (r : Ring T) (item : T)
      → IsValid r
      → IsValid (post depth drop_oldest r item).1
        × (queue (post depth drop_oldest r item).1 ≡ posted (is_full r) drop_oldest (queue r) item)
        × ((post depth drop_oldest r item).0 ≡ not (is_full r))
  unfolding post
  post-posted drop_oldest r item h = elim (Bool-cases (is_full r)) [
    | inr room ↦
        let few : r.count < depth = ground arith in
        rw (room, post) (put-IsValid r item h few, queue-put r item h few, refl)
    | inl full ↦ elim (Bool-cases drop_oldest) [
      | inr keep ↦ rw (full, keep, post) (h, refl, refl)
      | inl drop ↦
          let (valid, few) = dropped-IsValid r h full in
          rw (full, drop, post)
            (
              put-IsValid (dropped r) item valid few,
              queue-put (dropped r) item valid few
                  ∙ ap (λ q. q ++ item ∷ []) (queue-dropped r h full),
              refl,
            )
    ]
  ]
