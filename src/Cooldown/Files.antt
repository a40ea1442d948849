-- ===== src/Cooldown/Files.antt =====
-- A small JSON file as the cooldowns use it.

-- What a file holds. `unreadable` is what cannot be read or is no JSON, `other_json` what is no object.
pub data File (A : Type 0) : Type 0 where
  missing unreadable other_json : File A
  holds : A → File A

-- How a `write_text` ends: the content is there, or an exception is raised, which the callers catch, and
-- the file is left as given.
pub data Write (A : Type 0) : Type 0 where
  written : Write A
  left : File A → Write A

unfoldable pub file_after : {A : Type 0} → A → Write A → File A
file_after a written = holds a
file_after a (left file) = file
