-- ===== src/Chatter/Tests.antt =====
-- UDPChatter: the theorems on subjects at concrete inputs.
use network_programming_c.Prelude.{◌≡◌, refl, some, [], ◌∷◌, ◌++◌, replicate, codes, arith}
use network_programming_c.Chatter.Lines.{newline, Chat, announces, goes_on, chat, hears}
use network_programming_c.Chatter.Lines.Heard.{fresh_chat, heard_chat, hears-subscribe}
use network_programming_c.Chatter.Lines.Subjects.{IsSubject, subscription}

abbrev one_subject : Chat
one_subject = record {
  subject_list = codes "go" ∷ replicate 19 [];
  num_groups = 2;
  num_threads = 2;
}

tea-IsSubject : IsSubject (codes "tea")
tea-IsSubject = record {
  plain = ((refl, refl), ((refl, refl), ((refl, refl), tt)));
  nonempty = omega arith;
  short = omega arith;
}

hears-subscribe_example :
    (hears fresh_chat (codes "#tea" ++ newline ∷ []) ≡ some (heard_chat (codes "tea")))
    × (chat (codes "ann: ") (heard_chat (codes "tea")) (subscription (codes "tea"))
        ≡ some (
            goes_on
              (record {
                subject_list = codes "tea" ∷ codes "tea" ∷ replicate 18 [];
                num_groups = 3;
                num_threads = 2;
              })
              (announces (codes "tea") ∷ [])))
hears-subscribe_example = hears-subscribe (codes "ann: ") (codes "tea") tea-IsSubject
