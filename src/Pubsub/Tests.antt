-- ===== src/Pubsub/Tests.antt =====
-- Runs of publish and subscribe.
use brisedb.Prelude.{ℕ, ◌≡◌, not, ◌&&◌, ◌||◌, [], ◌∷◌, Bytes, ◌==◌, nat_eq, list_eq}
use brisedb.Prelude.Assoc.{mem}
use brisedb.Pubsub.{PubSub, subscribers, subscribe, unsubscribe, mem-subscribe}

abbrev news : Bytes
news = b'n' ∷ []

abbrev first : ℕ
first = 1

abbrev second : ℕ
second = 2

abbrev third : ℕ
third = 3

abbrev two_listen : PubSub
two_listen = (news, 1 ∷ 2 ∷ []) ∷ []

mem-subscribe_example :
    (mem 3 (subscribers news (subscribe 3 news two_listen))
      ≡ (((news == news) && (third == third)) || mem 3 (subscribers news two_listen)))
    × (mem 3 (subscribers news (unsubscribe 3 news two_listen))
        ≡ (mem 3 (subscribers news two_listen) && not ((news == news) && (third == third))))
mem-subscribe_example = mem-subscribe 3 3 news news two_listen
