-- ===== src/Util/Atomic/Safe.antt =====
-- What `atomic_write_all` leaves in the file, wherever it is stopped.
use libncclient.Common.{
  true, ◌&&◌, if◌then◌else◌, ◌≡◌, ◌≢◌, ◌⊎◌, inl, inr, refl, sym, ◌∙◌, Bool, false, List, [], ◌∷◌,
  Option, none, some, Bytes, bytes_eq, bytes_eq_self, bytes_eq_sound, Bool-cases, arith, ltb,
}
use libncclient.Util.Files.{Files, put, file_exists}
use libncclient.Util.Atomic.{
  Sys, ◌>>=◌, call, pure, raise, Reply, is_begun, is_success, Round, Answers, rename, replace_half,
  replace_file, replace_loop, Platform, posix, windows, replacement, first_rename, put_in_place,
}
use libncclient.Util.Atomic.Logic.{
  Triple, pure_rule, raise_rule, unknown_rule, ask_rule, if_rule, call_rule, bind_rule,
}

pub put_same : (name : Bytes) (v : Option Bytes) (f : Files) → put name v f name ≡ v
put_same name v f = rw (bytes_eq_self name) refl

pub put_other :
    (name other : Bytes) (v : Option Bytes) (f : Files)
    → name ≢ other
    → put name v f other ≡ f other
put_other name other v f apart = elim (Bool-cases (bytes_eq name other)) [
  | inl e ↦ absurd (apart (bytes_eq_sound name other e))
  | inr e ↦ rw e refl
]

pub file_exists-false : (name : Bytes) (f : Files) → file_exists name f ≡ false → f name ≡ none
unfolding file_exists
file_exists-false name f e = ground arith

-- A file, its two companions, and the files at the start.
module _ (file atomic_file backup_file : Bytes) (before : Files) where
  abbrev pub Frame : Files → Type 0
  Frame f =
      (name : Bytes) → name ≢ file → name ≢ atomic_file → name ≢ backup_file → f name ≡ before name

  -- The file has its old contents.
  abbrev pub Unwritten : Files → Type 0
  Unwritten f = (f file ≡ before file) × Frame f

  abbrev pub Ready : Bytes → Files → Type 0
  Ready text f = Unwritten f × (f atomic_file ≡ some text)

  abbrev pub Replaced : Bytes → Files → Type 0
  Replaced text f = (f file ≡ some text) × (f atomic_file ≡ none) × Frame f

  -- On Windows: the file is not there, and its old contents have the backup name.
  abbrev pub Away : Platform → Files → Type 0
  Away platform f = (platform ≡ windows) × (f file ≡ none) × (f backup_file ≡ before file)

  -- The old contents are kept, on Windows perhaps under the backup name.
  abbrev pub Kept : Platform → Files → Type 0
  Kept platform f = Unwritten f ⊎ (Away platform f × Frame f)

  -- The file has the old or the new contents, or it is away, and no other file changes.
  abbrev pub Whole : Platform → Bytes → Files → Type 0
  Whole platform text f =
      ((f file ≡ before file) ⊎ (f file ≡ some text) ⊎ Away platform f) × Frame f

  -- The new contents, or, where there was no file, none yet.
  abbrev pub Written : Bytes → Files → Type 0
  Written text f = Replaced text f ⊎ ((before file ≡ none) × Unwritten f)

  pub put_atomic-Frame : (v : Option Bytes) (f : Files) → Frame f → Frame (put atomic_file v f)
  put_atomic-Frame v f frame name nf na nb =
      put_other atomic_file name v f (λ e. na (sym e)) ∙ frame name nf na nb

  put_file-Frame : (v : Option Bytes) (f : Files) → Frame f → Frame (put file v f)
  put_file-Frame v f frame name nf na nb =
      put_other file name v f (λ e. nf (sym e)) ∙ frame name nf na nb

  put_backup-Frame : (v : Option Bytes) (f : Files) → Frame f → Frame (put backup_file v f)
  put_backup-Frame v f frame name nf na nb =
      put_other backup_file name v f (λ e. nb (sym e)) ∙ frame name nf na nb

  module _ (text : Bytes) (atomic≢file : atomic_file ≢ file)
      (backup≢atomic : backup_file ≢ atomic_file) where
    rename-Replaced :
        (f : Files)
        → Frame f
        → f atomic_file ≡ some text
        → Replaced text (rename atomic_file file f)
    rename-Replaced f frame there = (
      put_other atomic_file file none (put file (f atomic_file) f) atomic≢file
          ∙ put_same file (f atomic_file) f
          ∙ there,
      put_same atomic_file none (put file (f atomic_file) f),
      put_atomic-Frame none (put file (f atomic_file) f) (put_file-Frame (f atomic_file) f frame),
    )

    -- In the loop: the other file is ready, or the file is away.
    Waits : Platform → Files → Type 0
    Waits platform f = Ready text f ⊎ (Away platform f × Frame f)

    Waits-Kept : (platform : Platform) (f : Files) → Waits platform f → Kept platform f
    unfolding Waits
    Waits-Kept platform f (inl ready) = inl ready.0
    Waits-Kept platform f (inr away) = inr away

    -- Behind a call that replaced the file, or did not.
    Tried : Platform → Bool → Files → Type 0
    Tried platform true = Written text
    Tried platform false = Waits platform

    replaced_rule :
        (platform : Platform) (P E : Files → Type 0)
        → ((f : Files) → P f → Frame f × (f atomic_file ≡ some text))
        → Triple
            (Whole platform text)
            P
            (do _ ← call (rename atomic_file file); pure true)
            (Tried platform)
            E
    unfolding Tried
    replaced_rule platform P E there =
        bind_rule (Whole platform text) P (λ u. Written text) (Tried platform) E _ _
          (call_rule (Whole platform text) P _ E _ (λ f p.
            let replaced = rename-Replaced f (there f p).0 (there f p).1 in
            ((inr (inl replaced.0), replaced.2), inl replaced)))
          (λ u. pure_rule (Whole platform text) (Written text) (Tried platform) E true (λ f w. w))

    -- The file is away, and the other is ready.
    Half : Files → Type 0
    Half f = Away windows f × Frame f × (f atomic_file ≡ some text)

    Asked : Reply → Bool → Files → Type 0
    Asked reply begun f =
        Waits windows f
        × ((is_begun reply && (file_exists file f && file_exists atomic_file f)) ≡ begun)

    replace_half-Triple :
        (reply : Reply)
        → Triple
            (Whole windows text)
            Half
            (replace_half file atomic_file reply)
            (Tried windows)
            (Kept windows)
    unfolding replace_half Tried Waits Half
    replace_half-Triple reply =
        if_rule (Whole windows text) Half (Tried windows) (Kept windows) (is_success reply) _ _
          (λ yes. replaced_rule windows Half (Kept windows) (λ f half. (half.1, half.2)))
          (λ no.
            pure_rule (Whole windows text) Half (Tried windows) (Kept windows) false
              (λ f half. inr (half.0, half.1)))

    module _ (backup≢file : backup_file ≢ file) where
      moved_away : (f : Files) → Ready text f → Half (rename file backup_file f)
      unfolding Half
      moved_away f ((old, frame), there) = (
        (
          refl,
          put_same file none (put backup_file (f file) f),
          put_other file backup_file none (put backup_file (f file) f) (λ e. backup≢file (sym e))
              ∙ put_same backup_file (f file) f
              ∙ old,
        ),
        put_file-Frame none (put backup_file (f file) f) (put_backup-Frame (f file) f frame),
        put_other file atomic_file none (put backup_file (f file) f) (λ e. atomic≢file (sym e))
            ∙ put_other backup_file atomic_file (f file) f backup≢atomic
            ∙ there,
      )

      Asked-Ready : (reply : Reply) (f : Files) → Asked reply true f → Ready text f
      unfolding Asked Waits file_exists
      Asked-Ready reply f (inl ready, begun) = ready
      Asked-Ready reply f (inr ((on, gone, kept), frame), begun) =
          absurd (ground (arith, gone, begun))

      replace_file-Triple :
          (reply : Reply)
          → Triple
              (Whole windows text)
              (Waits windows)
              (replace_file file atomic_file backup_file reply)
              (Tried windows)
              (Kept windows)
      unfolding replace_file Asked Tried Half
      replace_file-Triple reply =
          bind_rule (Whole windows text) (Waits windows) (Asked reply) (Tried windows)
            (Kept windows) _ _
            (ask_rule (Whole windows text) (Waits windows) (Asked reply) (Kept windows) _
              (λ f waits. (waits, refl)))
            (λ begun.
              if_rule (Whole windows text) (Asked reply begun) (Tried windows) (Kept windows) begun
                _ _
                (λ yes.
                  bind_rule (Whole windows text) (Asked reply begun) (λ u. Half) (Tried windows)
                    (Kept windows) _ _
                    (call_rule (Whole windows text) (Asked reply begun) _ (Kept windows) _
                      (λ f (waits, asked).
                        let half = moved_away f (Asked-Ready reply f (waits, asked ∙ yes)) in
                        ((inr (inr half.0), half.1), half)))
                    (λ u. replace_half-Triple reply))
                (λ no.
                  pure_rule (Whole windows text) (Asked reply begun) (Tried windows) (Kept windows)
                    false (λ f asked. asked.0)))

      posix-Ready : (f : Files) → Waits posix f → Ready text f
      unfolding Waits
      posix-Ready f (inl ready) = ready
      posix-Ready f (inr ((on, gone, kept), frame)) = absurd cc

      replacement-Triple :
          (platform : Platform) (reply : Reply)
          → Triple
              (Whole platform text)
              (Waits platform)
              (replacement platform file atomic_file backup_file reply)
              (Tried platform)
              (Kept platform)
      unfolding replacement Tried
      replacement-Triple posix reply =
          bind_rule (Whole posix text) (Waits posix) (λ b. Waits posix) (Tried posix) (Kept posix) _
            _
            (ask_rule (Whole posix text) (Waits posix) (λ b. Waits posix) (Kept posix) _
              (λ f waits. waits))
            (λ moved.
              if_rule (Whole posix text) (Waits posix) (Tried posix) (Kept posix) moved _ _
                (λ yes.
                  replaced_rule posix (Waits posix) (Kept posix)
                    (λ f waits. let ready = posix-Ready f waits in (ready.0.1, ready.1)))
                (λ no.
                  pure_rule (Whole posix text) (Waits posix) (Tried posix) (Kept posix) false
                    (λ f waits. waits)))
      replacement-Triple windows reply = replace_file-Triple reply

      module _ (platform : Platform) (os : Answers) where
        -- What the loop does behind a call, with the rest of the loop.
        go_on :
            (rest : Sys (Unit {0})) (early : Bool)
            → Triple (Whole platform text) (Waits platform) rest (λ u. Written text) (Kept platform)
            → (replaced : Bool)
            → Triple
                (Whole platform text)
                (Tried platform replaced)
                (if replaced then pure tt else if early then rest else raise)
                (λ u. Written text)
                (Kept platform)
        unfolding Tried
        go_on rest early later true =
            pure_rule (Whole platform text) (Written text) _ (Kept platform) tt (λ f w. w)
        go_on rest early later false =
            if_rule (Whole platform text) (Waits platform) _ (Kept platform) early _ _
              (λ again. later)
              (λ late.
                raise_rule (Whole platform text) (Waits platform) _ (Kept platform)
                  (Waits-Kept platform))

        replace_loop-Triple :
            (rounds : List Round)
            → Triple
                (Whole platform text)
                (Waits platform)
                (replace_loop (replacement platform file atomic_file backup_file) rounds)
                (λ u. Written text)
                (Kept platform)
        unfolding replace_loop Tried
        replace_loop-Triple [] =
            unknown_rule (Whole platform text) (Waits platform) _ (Kept platform)
        replace_loop-Triple (round ∷ rounds) =
            bind_rule (Whole platform text) (Waits platform) (Tried platform) _ (Kept platform) _ _
              (replacement-Triple platform round.reply)
              (λ replaced. go_on _ (ltb round.elapsed 1000) (replace_loop-Triple rounds) replaced)

        -- Where the file is not there yet.
        Fresh : Files → Type 0
        Fresh f = Ready text f × (f file ≡ none)

        first_rename-Triple :
            Triple
              (Whole platform text)
              Fresh
              (first_rename os atomic_file file)
              (λ u. Written text)
              (Kept platform)
        unfolding first_rename Fresh
        first_rename-Triple =
            bind_rule (Whole platform text) Fresh (λ b. Fresh) _ (Kept platform) _ _
              (ask_rule (Whole platform text) Fresh (λ b. Fresh) (Kept platform) _
                (λ f fresh. fresh))
              (λ moved.
                if_rule (Whole platform text) Fresh _ (Kept platform) moved _ _
                  (λ yes_moved.
                    call_rule (Whole platform text) Fresh _ (Kept platform) _
                      (λ f (((old, frame), there), gone).
                        let replaced = rename-Replaced f frame there in
                        ((inr (inl replaced.0), replaced.2), inl replaced)))
                  (λ not_moved.
                    pure_rule (Whole platform text) Fresh _ (Kept platform) tt
                      (λ f ((unwritten, there), gone). inr (sym unwritten.0 ∙ gone, unwritten))))

        -- What the answer of `file_exists` says.
        Found : Bool → Files → Type 0
        Found there f = Ready text f × (file_exists file f ≡ there)

        pub put_in_place-Triple :
            Triple
              (Whole platform text)
              (Ready text)
              (put_in_place platform os file atomic_file backup_file)
              (λ u. Written text)
              (Kept platform)
        unfolding put_in_place Found file_exists Fresh Waits
        put_in_place-Triple =
            bind_rule (Whole platform text) (Ready text) Found _ (Kept platform) _ _
              (ask_rule (Whole platform text) (Ready text) Found (Kept platform) _
                (λ f ready. (ready, refl)))
              (λ there.
                if_rule (Whole platform text) (Found there) _ (Kept platform) there _ _
                  (λ yes_there. record {
                    reaches = λ f found. (replace_loop-Triple os.rounds).reaches f (inl found.0);
                  })
                  (λ not_there. record {
                    reaches = λ f (ready, gone).
                        first_rename-Triple.reaches f
                          (ready, file_exists-false file f (gone ∙ not_there));
                  }))
