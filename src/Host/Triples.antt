-- ===== src/Host/Triples.antt =====
-- What holds after a program that is started in a state: of its result and state where it goes
-- through, and of its state where it stops.
use agent_term_status.Prelude.{Result, ok, err}
use agent_term_status.Host.{Host, Stop, Run, next, ◌>>=◌}

abbrev pub After :
    {A : Type 0} → (A → Host → Type 0) → (Stop → Host → Type 0) → Host × Result A Stop → Type 0
After Q E (h, ok a) = Q a h
After Q E (h, err s) = E s h

abbrev pub Triple :
    {A : Type 0} → (Host → Type 0) → Run A → (A → Host → Type 0) → (Stop → Host → Type 0) → Type 0
Triple P m Q E = (h : Host) → P h → After Q E (m h)

pub After-next :
    {A B : Type 0} (Q : A → Host → Type 0) (R : B → Host → Type 0) (E : Stop → Host → Type 0)
    (f : A → Run B) (r : Host × Result A Stop)
    → ((a : A) → Triple (Q a) (f a) R E)
    → After Q E r
    → After R E (next f r)
After-next Q R E f (h, ok a) k q = k a h q
After-next Q R E f (h, err s) k q = q

-- One program, then another that depends on its result.
pub bind-Triple :
    {A B : Type 0} (P : Host → Type 0) (Q : A → Host → Type 0) (R : B → Host → Type 0)
    (E : Stop → Host → Type 0) (m : Run A) (f : A → Run B)
    → Triple P m Q E
    → ((a : A) → Triple (Q a) (f a) R E)
    → Triple P (m >>= f) R E
bind-Triple P Q R E m f t k h p = After-next Q R E f (m h) k (t h p)

pub After-weaken :
    {A : Type 0} (Q Q' : A → Host → Type 0) (E E' : Stop → Host → Type 0) (r : Host × Result A Stop)
    → After Q E r
    → ((a : A) (h : Host) → Q a h → Q' a h)
    → ((s : Stop) (h : Host) → E s h → E' s h)
    → After Q' E' r
After-weaken Q Q' E E' (h, ok a) q f g = f a h q
After-weaken Q Q' E E' (h, err s) q f g = g s h q
