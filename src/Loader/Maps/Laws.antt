-- ===== src/Loader/Maps/Laws.antt =====
-- `createMaps`: what the descriptors that it hands over stand for.
use platform_packages_module.Prelude.{
  ℕ, ◌+◌, ◌*◌, ◌/◌, ◌%◌, ◌^◌, ◌<◌, ◌≤◌, List, [], ◌∷◌, ◌≡◌, ◌≢◌, ◌⊎◌, Option, none, some, Bool,
  true, false, Text, pos, arith, inl, inr, refl, sym, subst, take, Bool-cases, Option-cases,
  false≢true, ◌==◌,
}
use platform_packages_module.Loader.Bpffs.{ok, Answer-cases, MapDef, MapShape, Bpffs, in_range}
use platform_packages_module.Loader.Maps.{
  returned, effective_type, effective_entries, with_rdonly_prog, map_matches_expectations, pin_map,
  accept_map, obtain_map, create_loop, map_pin_loc, requested,
}

-- The type that a definition asks for: HASH (1) for a DEVMAP_HASH (25) before kernel 5.4.
abbrev pub IsTypeFor : (kvers : ℕ) → MapDef → ℕ → Type 0
IsTypeFor kvers def type =
    ((def.type ≡ 25) × (kvers < 5 * 2 ^ 24 + 4 * 2 ^ 16) × (type ≡ 1))
    ⊎ (((def.type ≢ 25) ⊎ (5 * 2 ^ 24 + 4 * 2 ^ 16 ≤ kvers)) × (type ≡ def.type))

-- The entries: those of the definition, but for a ring buffer (27) a page at least.
abbrev pub IsEntriesFor : (page_size : ℕ) → MapDef → (type entries : ℕ) → Type 0
IsEntriesFor page_size def type entries =
    ((type ≢ 27) × (entries ≡ def.max_entries))
    ⊎ ((type ≡ 27)
        × (((page_size ≤ def.max_entries) × (entries ≡ def.max_entries))
            ⊎ ((def.max_entries < page_size) × (entries ≡ page_size))))

-- The flags: those of the definition, but for a DEVMAP (14) or DEVMAP_HASH with the bit of
-- BPF_F_RDONLY_PROG (128) set.
abbrev pub IsFlagsFor : MapDef → (type flags : ℕ) → Type 0
IsFlagsFor def type flags =
    ((type ≢ 14) × (type ≢ 25) × (flags ≡ def.map_flags))
    ⊎ (((type ≡ 14) ⊎ (type ≡ 25))
        × (flags / 128 % 2 ≡ 1)
        × (flags / 256 ≡ def.map_flags / 256)
        × (flags % 128 ≡ def.map_flags % 128))

-- A map that is as its definition asks for.
abbrev pub Fits : (page_size kvers : ℕ) → MapDef → MapShape → Type 0
Fits page_size kvers def shape =
    IsTypeFor kvers def shape.type
    × (shape.key_size ≡ def.key_size)
    × (shape.value_size ≡ def.value_size)
    × IsEntriesFor page_size def shape.type shape.max_entries
    × IsFlagsFor def shape.type shape.map_flags

map_matches_expectations-Fits :
    (page_size kvers : ℕ) (shape : MapShape) (def : MapDef)
    → map_matches_expectations page_size shape def (effective_type kvers def.type) ≡ true
    → Fits page_size kvers def shape
unfolding map_matches_expectations effective_type effective_entries with_rdonly_prog
map_matches_expectations-Fits page_size kvers shape def h =
    (ground arith, ground arith, ground arith, ground arith, ground arith)

module _ (sys : Bpffs) (page_size kvers : ℕ) (prefix obj_name : Text) where
  -- A map is pinned, with the mode and the owner of its definition.
  abbrev pub IsPinned : sys.World → MapDef → ℕ → Text → sys.World → Type 0
  IsPinned w def fd path w' =
      (w1 : sys.World) × (w2 : sys.World) × (sys.pin w fd path ≡ (w1, none))
      × (sys.chmod w1 path def.mode ≡ (w2, none))
      × (sys.chown w2 path def.uid def.gid ≡ (w', none))

  -- From one state to another the descriptor of a definition's map was got: of the map that was
  -- pinned before, or of a new one, which was then pinned. When it was got, the map fitted.
  abbrev pub IsObtained : sys.World → MapDef → Text → ℕ → sys.World → Type 0
  IsObtained w def name fd w' =
      let path = map_pin_loc sys page_size kvers prefix obj_name def name in
      (found : sys.World) × Fits page_size kvers def (sys.shape_of found fd)
      × (((sys.exists w path ≡ true) × (sys.retrieve_map w path ≡ (found, ok fd)) × (w' ≡ found))
          ⊎ ((sys.exists w path ≡ false)
              × (sys.create_map w (requested sys page_size kvers prefix obj_name def) (take 15 name)
                  ≡ (found, ok fd))
              × IsPinned found def fd path w'))

  -- One descriptor for each name, at its index: nothing exactly for a map outside its range of
  -- kernel versions, which leaves the state alone, else that of a map that was obtained.
  abbrev pub Aligned : sys.World → List Text → List MapDef → List (Option ℕ) → sys.World → Type 0
  Aligned w [] defs [] w' = w ≡ w'
  Aligned w (name ∷ names) (def ∷ defs) (none ∷ fds) w' =
      (in_range kvers def.min_kver def.max_kver ≡ false) × Aligned w names defs fds w'
  Aligned w (name ∷ names) (def ∷ defs) (some fd ∷ fds) w' =
      (in_range kvers def.min_kver def.max_kver ≡ true)
      × ((w1 : sys.World) × IsObtained w def name fd w1 × Aligned w1 names defs fds w')
  Aligned _ _ _ _ _ = ⊥

  pin_map-IsPinned :
      (w : sys.World) (def : MapDef) (fd : ℕ) (path : Text)
      → let out = pin_map sys page_size kvers prefix obj_name w def fd path in
        out.1 ≡ none → IsPinned w def fd path out.0
  unfolding pin_map
  pin_map-IsPinned w def fd path h =
      let w1 = (sys.pin w fd path).0 in
      let w2 = (sys.chmod w1 path def.mode).0 in (w1, w2, ground arith, ground arith, ground arith)

  -- What an accepted map satisfies.
  abbrev IsAccepted : (reuse : Bool) → sys.World → MapDef → ℕ → Text → sys.World → Type 0
  IsAccepted reuse w def fd path w' =
      Fits page_size kvers def (sys.shape_of w fd)
      × (((reuse ≡ true) × (w' ≡ w)) ⊎ ((reuse ≡ false) × IsPinned w def fd path w'))

  accept_map-IsAccepted :
      (reuse : Bool) (w : sys.World) (def : MapDef) (fd : ℕ) (path : Text) {fd' : ℕ}
      → let out = accept_map sys page_size kvers prefix obj_name reuse w def fd path in
        out.1 ≡ ok fd' → (fd ≡ fd') × IsAccepted reuse w def fd path out.0
  unfolding accept_map
  accept_map-IsAccepted reuse w def fd path h =
      let pinned = pin_map sys page_size kvers prefix obj_name w def fd path in
      let type = effective_type kvers def.type in
      elim (Bool-cases (map_matches_expectations page_size (sys.shape_of w fd) def type)) [
        | inr off ↦ absurd (ground (arith, off))
        | inl on ↦
            let fits = map_matches_expectations-Fits page_size kvers (sys.shape_of w fd) def on in
            elim (Bool-cases reuse) [
              | inl again ↦
                  (ground (arith, on, again), (fits, inl (again, ground (arith, on, again))))
              | inr new ↦ elim (Option-cases pinned.1) [
                | inl none_left ↦ (
                  ground (arith, on, new, none_left),
                  (
                    fits,
                    inr (new, rw (on, new, accept_map) (pin_map-IsPinned w def fd path none_left)),
                  ),
                )
                | inr (err, e) ↦ absurd (ground (arith, on, new, e))
              ]
            ]
      ]

  -- The two ways to get a descriptor.
  obtain_map-IsObtained :
      (w : sys.World) (def : MapDef) (name : Text) {fd : ℕ}
      → let out = obtain_map sys page_size kvers prefix obj_name w def name in
        out.1 ≡ ok fd → IsObtained w def name fd out.0
  unfolding obtain_map
  obtain_map-IsObtained w def name {fd} h =
      let path = map_pin_loc sys page_size kvers prefix obj_name def name in
      let old = sys.retrieve_map w path in
      let new =
        sys.create_map w (requested sys page_size kvers prefix obj_name def) (take 15 name) in
      elim (Bool-cases (sys.exists w path)) [
        | inl there ↦ elim (Answer-cases old.1) [
          | inr (err, e) ↦ absurd (ground (arith, there, e))
          | inl (fd', e) ↦
              let (same, (fits, way)) =
                accept_map-IsAccepted true old.0 def fd' path {fd' = fd}
                  (ground (arith, there, e)) in
              (old.0, rw same at fits, ground (arith, there, e, same, way))
        ]
        | inr missing ↦ elim (Answer-cases new.1) [
          | inr (err, e) ↦ absurd (ground (arith, missing, e))
          | inl (fd', e) ↦
              let accepted =
                accept_map sys page_size kvers prefix obj_name false new.0 def fd' path in
              let (same, (fits, way)) =
                accept_map-IsAccepted false new.0 def fd' path {fd' = fd}
                  (ground (arith, missing, e)) in
              (
                new.0,
                rw same at fits,
                elim way [
                  | inl (clash, _) ↦ absurd (false≢true clash)
                  | inr (_, pinned) ↦ inr (
                    missing,
                    ground (arith, e, same),
                    subst (λ w'. IsPinned new.0 def fd path w') (sym (ground (arith, missing, e)))
                        (subst (λ n. IsPinned new.0 def n path accepted.0) same pinned),
                  )
                ],
              )
        ]
      ]

  -- If the loop of `createMaps` ends with 0, there is one descriptor for each name, at its index:
  -- nothing exactly for a map outside its range of kernel versions, for which no call is made, else
  -- that of the map that was pinned at its place before, or else of a map that was created as its
  -- definition asks for and then pinned there, with the mode and the owner of the definition; and
  -- when the descriptor was got, the kernel told of the map the type, the sizes, the entries and the
  -- flags that its definition asks for.
  pub create_loop-Aligned :
      (w : sys.World) (names : List Text) (defs : List MapDef)
      → let out = create_loop sys page_size kvers prefix obj_name w names defs in
        out.ended ≡ returned (pos 0) → Aligned w names defs out.map_fds out.world
  unfolding create_loop
  create_loop-Aligned w [] defs h = refl
  create_loop-Aligned w (name ∷ names) [] h = cc
  create_loop-Aligned w (name ∷ names) (def ∷ defs) h =
      let (w1, answer) = obtain_map sys page_size kvers prefix obj_name w def name in
      elim (Bool-cases (def.zero_field == 0)) [
        | inr bad ↦ absurd (ground (arith, bad))
        | inl fine ↦ elim (Bool-cases (in_range kvers def.min_kver def.max_kver)) [
          | inr other ↦
              rw (fine, other, create_loop)
                (other, create_loop-Aligned w names defs (rw (fine, other, create_loop) at h))
          | inl now ↦ elim (Answer-cases answer) [
            | inr (err, e) ↦ absurd (ground (arith, fine, now, e))
            | inl (fd, e) ↦
                rw (fine, now, e, create_loop)
                  (
                    now,
                    (
                      w1,
                      obtain_map-IsObtained w def name e,
                      create_loop-Aligned w1 names defs (rw (fine, now, e, create_loop) at h),
                    ),
                  )
          ]
        ]
      ]
