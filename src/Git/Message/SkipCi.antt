-- ===== src/Git/Message/SkipCi.antt =====
-- docs/git-policy.md asks for the tag [skip ci] on every automated commit, so that it starts no build.
use accord.Base.{
  ℕ, List, [], ◌∷◌, ◌++◌, Bytes, codes, ◌==◌, append_assoc, ◌≡◌, ◌⊎◌, inl, inr, refl, sym, ap, ◌∙◌,
  Bool-cases,
}
use accord.Decimal.{decimal}
use accord.Dict.{Dict}
use accord.Git.ArchivePath.{resource_name_from_inventory_path}
use accord.Git.Queue.{PendingExport}
use accord.Git.Message.{
  newline, commit_subject, archive_subject, mixed_subject, sorted_keys_batch, writes_of,
  archives_of, message_of, commit_message_for_batch, with_body, full_message,
}

abbrev pub skip_ci : Bytes
skip_ci = codes " [skip ci]"

-- The text ends in the tag.
abbrev pub IsTagged : Bytes → Type 0
IsTagged s = (front : Bytes) × (s ≡ front ++ skip_ci)

IsTagged-append : (p s : Bytes) → IsTagged s → IsTagged (p ++ s)
IsTagged-append p s (front, e) =
    (p ++ front, ap (λ x. p ++ x) e ∙ sym (append_assoc p front skip_ci))

commit_subject-IsTagged : (n : ℕ) → IsTagged (commit_subject n)
unfolding commit_subject
commit_subject-IsTagged n =
    IsTagged-append (codes "chore(inventory): sync ") _
      (IsTagged-append (decimal n) _ (codes " resources", refl))

archive_subject-IsTagged : (what : Bytes) → IsTagged (archive_subject what)
archive_subject-IsTagged what =
    IsTagged-append (codes "feat(archive): move deleted resource ") _
      (IsTagged-append what _ (codes " to archive", refl))

mixed_subject-IsTagged : (w a : ℕ) → IsTagged (mixed_subject w a)
mixed_subject-IsTagged w a = IsTagged-append (codes "chore(inventory): sync ") _ (
    IsTagged-append (decimal w) _ (
      IsTagged-append (codes " and archive ") _
        (IsTagged-append (decimal a) _ (codes " resources", refl))))

message_of-IsTagged : (writes archives : List Bytes) → IsTagged (message_of writes archives).0
unfolding message_of
message_of-IsTagged [] [] = mixed_subject-IsTagged 0 0
message_of-IsTagged [] (a ∷ []) = archive_subject-IsTagged (resource_name_from_inventory_path a)
message_of-IsTagged [] (a ∷ b ∷ archives) = archive_subject-IsTagged _
message_of-IsTagged (w ∷ writes) [] = commit_subject-IsTagged _
message_of-IsTagged (w ∷ writes) (a ∷ archives) = mixed_subject-IsTagged _ _

with_body-lines :
    (subject body : Bytes)
    → (with_body (subject, body) ≡ subject)
      ⊎ (with_body (subject, body) ≡ subject ++ (newline ++ (newline ++ body)))
with_body-lines subject body = elim (Bool-cases (body == [])) [
  | inl empty ↦ inl (rw empty refl)
  | inr some ↦ inr (rw some refl)
]

-- Whatever a batch holds, the subject of its commit message ends in " [skip ci]"; and the message is the
-- subject alone, or the subject, an empty line and the body.
pub full_message-IsTagged :
    (batch : Dict PendingExport)
    → IsTagged (commit_message_for_batch batch (sorted_keys_batch batch)).0
      × ((full_message batch ≡ (commit_message_for_batch batch (sorted_keys_batch batch)).0)
          ⊎ (full_message batch
              ≡ (commit_message_for_batch batch (sorted_keys_batch batch)).0
                ++ (newline
                    ++ (newline ++ (commit_message_for_batch batch (sorted_keys_batch batch)).1))))
unfolding full_message commit_message_for_batch
full_message-IsTagged batch =
    let writes = writes_of batch (sorted_keys_batch batch) in
    let archives = archives_of batch (sorted_keys_batch batch) in
    (
      message_of-IsTagged writes archives,
      with_body-lines (message_of writes archives).0 (message_of writes archives).1,
    )
