-- ===== src/Keyboard/Reads.antt =====
-- keyboard_push and keyboard_pop in any order against a queue.
use boi_os.Prelude.{ℕ, ◌<◌, ◌≡◌, refl, ap, Option, some, List, [], ◌∷◌, ◌++◌, length}
use boi_os.Keyboard.{KeyboardBuffer, keyboard_push, keyboard_pop}
use boi_os.Keyboard.Queue.{Holds, keyboard_push-Holds, keyboard_pop-Holds, keyboard_pop-empty}

-- A key that the keyboard's interrupt stores, or a system call that takes one.
pub data KeyEvent : Type 0 where
  press : ℕ → KeyEvent
  read : KeyEvent

-- What the calls of keyboard_pop return.
pub buffer_reads : Option KeyboardBuffer → List KeyEvent → List ℕ
buffer_reads process [] = []
buffer_reads process (press c ∷ es) = buffer_reads (keyboard_push process c) es
buffer_reads process (read ∷ es) =
    let (c, process') = keyboard_pop process in c ∷ buffer_reads process' es

-- What a queue returns, with 0 where it is empty.
abbrev pub queue_reads : List ℕ → List KeyEvent → List ℕ
queue_reads q [] = []
queue_reads q (press c ∷ es) = queue_reads (q ++ (c ∷ [])) es
queue_reads [] (read ∷ es) = 0 ∷ queue_reads [] es
queue_reads (c ∷ q) (read ∷ es) = c ∷ queue_reads q es

-- No key is 0, and none is pressed on 1024 keys that nobody has read.
abbrev pub Room : List ℕ → List KeyEvent → Type 0
Room q [] = Unit
Room q (press c ∷ es) = (0 < c) × (length q < 1024) × Room (q ++ (c ∷ [])) es
Room [] (read ∷ es) = Room [] es
Room (c ∷ q) (read ∷ es) = Room q es

-- From a buffer that holds a queue, while no key is 0 and there are never more than 1024 unread keys,
-- keyboard_pop returns what the queue would, whatever the order of the calls of keyboard_push and
-- keyboard_pop.
pub buffer_reads-queue_reads :
    (es : List KeyEvent) (b : KeyboardBuffer) (q : List ℕ)
    → Holds b q
    → Room q es
    → buffer_reads (some b) es ≡ queue_reads q es
unfolding buffer_reads
buffer_reads-queue_reads [] b q h r = refl
buffer_reads-queue_reads (press c ∷ es) b q h (pc, lt, r) =
    let (b', e, h') = keyboard_push-Holds b q c h pc lt in
    rw e (buffer_reads-queue_reads es b' (q ++ (c ∷ [])) h' r)
buffer_reads-queue_reads (read ∷ es) b [] h r =
    rw (keyboard_pop-empty b h) (ap (λ cs. 0 ∷ cs) (buffer_reads-queue_reads es b [] h r))
buffer_reads-queue_reads (read ∷ es) b (c ∷ q) h r =
    let (b', e, h') = keyboard_pop-Holds b q c h in
    rw e (ap (λ cs. c ∷ cs) (buffer_reads-queue_reads es b' q h' r))
