-- ===== src/Command/Tests.antt =====
-- Command lines at concrete arguments.
use web_ui.Base.{◌≡◌, refl, List, [], ◌∷◌, inl, inr}
use web_ui.Base.Text.{Text, codes, is_space, split, join}
use web_ui.Command.{
  index_of, quote_kind, from_arg, from_args, last_char, drop_last, start_part, continue_part,
  take_part, take_parts, to_args,
}
use web_ui.Command.Laws.{IsWord, IsPhrase, to_args-from_args}

command : Unit {0}
unfolding index_of quote_kind from_arg from_args last_char drop_last start_part continue_part
    take_part take_parts to_args split join is_space
command = tt

abbrev shell : List Text
shell = codes "sh" ∷ codes "-c" ∷ codes "it's on" ∷ []

printed : from_args shell ≡ codes "sh -c \"it's on\""
unfolding command
printed = refl

IsWord-dash : IsWord (codes "-c")
unfolding is_space
IsWord-dash = record { head = b'-'; tail = codes "c"; cons = refl; bare = refl; solid = refl }

IsWord-shell : IsWord (codes "sh")
unfolding is_space
IsWord-shell = record { head = b's'; tail = codes "h"; cons = refl; bare = refl; solid = refl }

phrase : IsPhrase (codes "it's on")
phrase = record {
  before = codes "it's";
  after = codes "on";
  cut = refl;
  first = (refl, (refl, (refl, (refl, tt))));
  free = inr (refl, (refl, (refl, (refl, (refl, (refl, (refl, tt)))))));
}

to_args-from_args_example : to_args (from_args shell) ≡ shell
to_args-from_args_example =
    to_args-from_args shell (inl IsWord-shell, (inl IsWord-dash, (inr phrase, tt)))

-- A double quote that comes first is quoted by double quotes, and the argument is cut at its next one.
both_quotes : to_args (from_args (codes "a b\" c 'd" ∷ [])) ≡ codes "a b" ∷ codes "c" ∷ []
unfolding command
both_quotes = refl
