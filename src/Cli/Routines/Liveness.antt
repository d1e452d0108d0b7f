-- ===== src/Cli/Routines/Liveness.antt =====
-- pkg/cli/cliexecuter.go: the table of fence agents and the goroutines that run.
use fence_agents_remediation.Prelude.{
  ℕ, ℤ, suc, ◌<◌, String, ◌≡◌, refl, ◌∙◌, sym, Bool, false, not, ◌&&◌, Option, none, some, List, [],
  ◌∷◌, ◌==◌, length, if◌then◌else◌, arith, eq_iff, eqb, Bool-cases, Option-cases, inl, inr,
}
use fence_agents_remediation.Prelude.Dict.{
  get, has, put, remove, get-put, get-remove, has-eq-false, has-eq-true,
}
use fence_agents_remediation.Cli.Routines.{
  Goroutine, Executer, new_executer, exists, async_execute, cancel, remove_routine,
}

abbrev pub is_live : String → Goroutine → Bool
is_live uid g = g.uid == uid && not g.canceled

-- The goroutines for a resource that have not been canceled.
abbrev pub live : String → List Goroutine → ℕ
live uid [] = 0
live uid (g ∷ gs) = let rest = live uid gs in if is_live uid g then suc rest else rest

-- The number of each goroutine is its place from the end.
abbrev pub WellNumbered : List Goroutine → Type 0
WellNumbered [] = Unit
WellNumbered (g ∷ gs) = (g.id ≡ length gs) × WellNumbered gs

-- The live goroutine with a number, if it is live.
abbrev pub owner : ℕ → List Goroutine → Option String
owner id [] = none
owner id (g ∷ gs) =
    let rest = owner id gs in
    if eqb g.id id then (if g.canceled then none else some g.uid) else rest

abbrev pub entries : Option ℕ → ℕ
entries none = 0
entries (some _) = 1

pub record IsSound (e : Executer) : Type 0 where
  pub numbered : WellNumbered e.goroutines
  -- An entry of the table is the number of a live goroutine for its resource.
  pub owned :
      (uid : String) (id : ℕ) → get e.routines uid ≡ some id → owner id e.goroutines ≡ some uid
  -- A resource has as many live goroutines as entries: one or none.
  pub counted : (uid : String) → live uid e.goroutines ≡ entries (get e.routines uid)

owner_bound :
    (gs : List Goroutine) (id : ℕ) (uid : String)
    → WellNumbered gs
    → owner id gs ≡ some uid
    → id < length gs
owner_bound [] id uid w h = cc
owner_bound (g ∷ gs) id uid (e, w) h = ground (arith, owner_bound gs id uid w)

live-cancel :
    (gs : List Goroutine) (id : ℕ) (uid v : String)
    → owner id gs ≡ some uid
    → live v gs ≡ (if uid == v then suc (live v (cancel id gs)) else live v (cancel id gs))
unfolding cancel
live-cancel [] id uid v h = cc
live-cancel (g ∷ gs) id uid v h = ground (arith, live-cancel gs id uid v)

owner-cancel :
    (gs : List Goroutine) (id j : ℕ)
    → owner j (cancel id gs) ≡ (if eqb id j then none else owner j gs)
unfolding cancel
owner-cancel [] id j = ground arith
owner-cancel (g ∷ gs) id j = ground (arith, owner-cancel gs id j)

length-cancel : (gs : List Goroutine) (id : ℕ) → length (cancel id gs) ≡ length gs
unfolding cancel
length-cancel [] id = refl
length-cancel (g ∷ gs) id = ground (arith, length-cancel gs id)

cancel-WellNumbered : (gs : List Goroutine) (id : ℕ) → WellNumbered gs → WellNumbered (cancel id gs)
unfolding cancel
cancel-WellNumbered [] id w = tt
cancel-WellNumbered (g ∷ gs) id (e, w) = elim (Bool-cases (eqb g.id id)) [
  | inl same ↦ rw same (e, w)
  | inr other ↦ rw other (e ∙ sym (length-cancel gs id), cancel-WellNumbered gs id w)
]

pub new_executer-IsSound : IsSound new_executer
unfolding new_executer get
new_executer-IsSound = record { numbered = tt; owned = λ uid id h. cc; counted = λ uid. refl }

some-injective : {i j : ℕ} → some i ≡ some j → i ≡ j
some-injective e = cc

module _ (e : Executer) (s : IsSound e) where
  abbrev started : String → List String → ℤ → ℤ → ℤ → Goroutine
  started uid command retry_count retry_interval timeout = record {
    id = length e.goroutines;
    uid = uid;
    command = command;
    retry_count = retry_count;
    retry_interval = retry_interval;
    timeout = timeout;
    canceled = false;
  }

  owned-put :
      (g : Goroutine) (v : String) (id : ℕ)
      → g.id ≡ length e.goroutines
      → g.canceled ≡ false
      → get (put e.routines g.uid (length e.goroutines)) v ≡ some id
      → owner id (g ∷ e.goroutines) ≡ some v
  owned-put g v id at alive h = elim (Bool-cases (g.uid == v)) [
    | inl same ↦ ground (arith, get-put e.routines g.uid v (length e.goroutines), eq_iff g.uid v)
    | inr other ↦
        let old : get e.routines v ≡ some id =
          cc (get-put e.routines g.uid v (length e.goroutines), other, h) in
        ground
          (arith, s.owned v id old, owner_bound e.goroutines id v s.numbered (s.owned v id old))
  ]

  counted-put :
      (g : Goroutine) (v : String)
      → has e.routines g.uid ≡ false
      → g.canceled ≡ false
      → live v (g ∷ e.goroutines) ≡ entries (get (put e.routines g.uid (length e.goroutines)) v)
  counted-put g v absent alive = ground (
    arith,
    get-put e.routines g.uid v (length e.goroutines),
    has-eq-false e.routines g.uid absent,
    eq_iff g.uid v,
    s.counted v,
  )

  owned-cancel :
      (uid v : String) (id j : ℕ)
      → get e.routines uid ≡ some id
      → get (remove e.routines uid) v ≡ some j
      → owner j (cancel id e.goroutines) ≡ some v
  owned-cancel uid v id j found h = ground (
    arith,
    get-remove e.routines uid v,
    owner-cancel e.goroutines id j,
    s.owned uid id found,
    s.owned v j,
    eq_iff uid v,
  )

  counted-cancel :
      (uid v : String) (id : ℕ)
      → get e.routines uid ≡ some id
      → live v (cancel id e.goroutines) ≡ entries (get (remove e.routines uid) v)
  counted-cancel uid v id found = ground (
    arith,
    get-remove e.routines uid v,
    live-cancel e.goroutines id uid v (s.owned uid id found),
    eq_iff uid v,
    s.counted v,
  )

  pub async_execute-IsSound :
      (uid : String) (command : List String) (retry_count retry_interval timeout : ℤ)
      → IsSound (async_execute e uid command retry_count retry_interval timeout)
  unfolding async_execute
  async_execute-IsSound uid command retry_count retry_interval timeout =
      elim (Bool-cases (has e.routines uid)) [
        | inl there ↦ rw there s
        | inr absent ↦ rw absent (record {
          numbered = (refl, s.numbered);
          owned = λ v id h.
              owned-put (started uid command retry_count retry_interval timeout) v id refl refl h;
          counted = λ v.
              counted-put (started uid command retry_count retry_interval timeout) v absent refl;
        })
      ]

  pub remove_routine-IsSound : (uid : String) → IsSound (remove_routine e uid)
  unfolding remove_routine
  remove_routine-IsSound uid = elim (Option-cases (get e.routines uid)) [
    | inl absent ↦ rw (remove_routine, absent) s
    | inr (id, found) ↦
        rw (remove_routine, found)
          (record {
            numbered = cancel-WellNumbered e.goroutines id s.numbered;
            owned = λ v j h. owned-cancel uid v id j found h;
            counted = λ v. counted-cancel uid v id found;
          })
  ]

-- The states that the operations reach, in whatever order they are called.
pub data Reached : Executer → Type 0 where
  at_start : Reached new_executer
  after_execute :
      {e : Executer} (uid : String) (command : List String) (retry_count retry_interval timeout : ℤ)
      → Reached e
      → Reached (async_execute e uid command retry_count retry_interval timeout)
  after_remove : {e : Executer} (uid : String) → Reached e → Reached (remove_routine e uid)

pub Reached-IsSound : {e : Executer} → Reached e → IsSound e
Reached-IsSound at_start = new_executer-IsSound
Reached-IsSound (after_execute uid command retry_count retry_interval timeout r) =
    async_execute-IsSound _ (Reached-IsSound r) uid command retry_count retry_interval timeout
Reached-IsSound (after_remove uid r) = remove_routine-IsSound _ (Reached-IsSound r) uid

-- In every state that AsyncExecute and Remove reach, a resource has one goroutine that is not
-- canceled if Exists says so, and none otherwise.
pub live-Reached :
    (e : Executer) (uid : String)
    → Reached e
    → live uid e.goroutines ≡ (if exists e uid then 1 else 0)
unfolding exists
live-Reached e uid r = ground (
  arith,
  (Reached-IsSound r).counted uid,
  has-eq-false e.routines uid,
  has-eq-true e.routines uid,
  Option-cases (get e.routines uid),
)
