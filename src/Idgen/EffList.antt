-- ===== src/Idgen/EffList.antt =====
-- internal/idgen/eff_short_wordlist_1.txt, the file that `//go:embed` puts into `rawWordlist`: each
-- line is a four-dice number, a tab, a word and a line feed. The dice numbers are the rolls in order.
use mcp_chain.Base.{ℕ, suc, ◌+◌, ◌%◌, ◌/◌, List, [], ◌∷◌, ◌++◌, Bytes, String, codes, map}

abbrev words_0 : List String
words_0 =
    "acid" ∷ "acorn" ∷ "acre" ∷ "acts" ∷ "afar" ∷ "affix" ∷ "aged" ∷ "agent" ∷ "agile" ∷ "aging"
    ∷ "agony" ∷ "ahead" ∷ "aide" ∷ "aids" ∷ "aim" ∷ "ajar" ∷ "alarm" ∷ "alias" ∷ "alibi" ∷ "alien"
    ∷ "alike" ∷ "alive" ∷ "aloe" ∷ "aloft" ∷ "aloha" ∷ "alone" ∷ "amend" ∷ "amino" ∷ "ample"
    ∷ "amuse" ∷ "angel" ∷ "anger" ∷ "angle" ∷ "ankle" ∷ "apple" ∷ "april" ∷ "apron" ∷ "aqua"
    ∷ "area" ∷ "arena" ∷ "argue" ∷ "arise" ∷ "armed" ∷ "armor" ∷ "army" ∷ "aroma" ∷ "array"
    ∷ "arson" ∷ "art" ∷ "ashen" ∷ "ashes" ∷ "atlas" ∷ "atom" ∷ "attic" ∷ []

abbrev words_1 : List String
words_1 =
    "audio" ∷ "avert" ∷ "avoid" ∷ "awake" ∷ "award" ∷ "awoke" ∷ "axis" ∷ "bacon" ∷ "badge" ∷ "bagel"
    ∷ "baggy" ∷ "baked" ∷ "baker" ∷ "balmy" ∷ "banjo" ∷ "barge" ∷ "barn" ∷ "bash" ∷ "basil" ∷ "bask"
    ∷ "batch" ∷ "bath" ∷ "baton" ∷ "bats" ∷ "blade" ∷ "blank" ∷ "blast" ∷ "blaze" ∷ "bleak"
    ∷ "blend" ∷ "bless" ∷ "blimp" ∷ "blink" ∷ "bloat" ∷ "blob" ∷ "blog" ∷ "blot" ∷ "blunt" ∷ "blurt"
    ∷ "blush" ∷ "boast" ∷ "boat" ∷ "body" ∷ "boil" ∷ "bok" ∷ "bolt" ∷ "boned" ∷ "boney" ∷ "bonus"
    ∷ "bony" ∷ "book" ∷ "booth" ∷ "boots" ∷ "boss" ∷ []

abbrev words_2 : List String
words_2 =
    "botch" ∷ "both" ∷ "boxer" ∷ "breed" ∷ "bribe" ∷ "brick" ∷ "bride" ∷ "brim" ∷ "bring" ∷ "brink"
    ∷ "brisk" ∷ "broad" ∷ "broil" ∷ "broke" ∷ "brook" ∷ "broom" ∷ "brush" ∷ "buck" ∷ "bud" ∷ "buggy"
    ∷ "bulge" ∷ "bulk" ∷ "bully" ∷ "bunch" ∷ "bunny" ∷ "bunt" ∷ "bush" ∷ "bust" ∷ "busy" ∷ "buzz"
    ∷ "cable" ∷ "cache" ∷ "cadet" ∷ "cage" ∷ "cake" ∷ "calm" ∷ "cameo" ∷ "canal" ∷ "candy" ∷ "cane"
    ∷ "canon" ∷ "cape" ∷ "card" ∷ "cargo" ∷ "carol" ∷ "carry" ∷ "carve" ∷ "case" ∷ "cash" ∷ "cause"
    ∷ "cedar" ∷ "chain" ∷ "chair" ∷ "chant" ∷ []

abbrev words_3 : List String
words_3 =
    "chaos" ∷ "charm" ∷ "chase" ∷ "cheek" ∷ "cheer" ∷ "chef" ∷ "chess" ∷ "chest" ∷ "chew" ∷ "chief"
    ∷ "chili" ∷ "chill" ∷ "chip" ∷ "chomp" ∷ "chop" ∷ "chow" ∷ "chuck" ∷ "chump" ∷ "chunk" ∷ "churn"
    ∷ "chute" ∷ "cider" ∷ "cinch" ∷ "city" ∷ "civic" ∷ "civil" ∷ "clad" ∷ "claim" ∷ "clamp" ∷ "clap"
    ∷ "clash" ∷ "clasp" ∷ "class" ∷ "claw" ∷ "clay" ∷ "clean" ∷ "clear" ∷ "cleat" ∷ "cleft"
    ∷ "clerk" ∷ "click" ∷ "cling" ∷ "clink" ∷ "clip" ∷ "cloak" ∷ "clock" ∷ "clone" ∷ "cloth"
    ∷ "cloud" ∷ "clump" ∷ "coach" ∷ "coast" ∷ "coat" ∷ "cod" ∷ []

abbrev words_4 : List String
words_4 =
    "coil" ∷ "coke" ∷ "cola" ∷ "cold" ∷ "colt" ∷ "coma" ∷ "come" ∷ "comic" ∷ "comma" ∷ "cone"
    ∷ "cope" ∷ "copy" ∷ "coral" ∷ "cork" ∷ "cost" ∷ "cot" ∷ "couch" ∷ "cough" ∷ "cover" ∷ "cozy"
    ∷ "craft" ∷ "cramp" ∷ "crane" ∷ "crank" ∷ "crate" ∷ "crave" ∷ "crawl" ∷ "crazy" ∷ "creme"
    ∷ "crepe" ∷ "crept" ∷ "crib" ∷ "cried" ∷ "crisp" ∷ "crook" ∷ "crop" ∷ "cross" ∷ "crowd"
    ∷ "crown" ∷ "crumb" ∷ "crush" ∷ "crust" ∷ "cub" ∷ "cult" ∷ "cupid" ∷ "cure" ∷ "curl" ∷ "curry"
    ∷ "curse" ∷ "curve" ∷ "curvy" ∷ "cushy" ∷ "cut" ∷ "cycle" ∷ []

abbrev words_5 : List String
words_5 =
    "dab" ∷ "dad" ∷ "daily" ∷ "dairy" ∷ "daisy" ∷ "dance" ∷ "dandy" ∷ "darn" ∷ "dart" ∷ "dash"
    ∷ "data" ∷ "date" ∷ "dawn" ∷ "deaf" ∷ "deal" ∷ "dean" ∷ "debit" ∷ "debt" ∷ "debug" ∷ "decaf"
    ∷ "decal" ∷ "decay" ∷ "deck" ∷ "decor" ∷ "decoy" ∷ "deed" ∷ "delay" ∷ "denim" ∷ "dense" ∷ "dent"
    ∷ "depth" ∷ "derby" ∷ "desk" ∷ "dial" ∷ "diary" ∷ "dice" ∷ "dig" ∷ "dill" ∷ "dime" ∷ "dimly"
    ∷ "diner" ∷ "dingy" ∷ "disco" ∷ "dish" ∷ "disk" ∷ "ditch" ∷ "ditzy" ∷ "dizzy" ∷ "dock" ∷ "dodge"
    ∷ "doing" ∷ "doll" ∷ "dome" ∷ "donor" ∷ []

abbrev words_6 : List String
words_6 =
    "donut" ∷ "dose" ∷ "dot" ∷ "dove" ∷ "down" ∷ "dowry" ∷ "doze" ∷ "drab" ∷ "drama" ∷ "drank"
    ∷ "draw" ∷ "dress" ∷ "dried" ∷ "drift" ∷ "drill" ∷ "drive" ∷ "drone" ∷ "droop" ∷ "drove"
    ∷ "drown" ∷ "drum" ∷ "dry" ∷ "duck" ∷ "duct" ∷ "dude" ∷ "dug" ∷ "duke" ∷ "duo" ∷ "dusk" ∷ "dust"
    ∷ "duty" ∷ "dwarf" ∷ "dwell" ∷ "eagle" ∷ "early" ∷ "earth" ∷ "easel" ∷ "east" ∷ "eaten" ∷ "eats"
    ∷ "ebay" ∷ "ebony" ∷ "ebook" ∷ "echo" ∷ "edge" ∷ "eel" ∷ "eject" ∷ "elbow" ∷ "elder" ∷ "elf"
    ∷ "elk" ∷ "elm" ∷ "elope" ∷ "elude" ∷ []

abbrev words_7 : List String
words_7 =
    "elves" ∷ "email" ∷ "emit" ∷ "empty" ∷ "emu" ∷ "enter" ∷ "entry" ∷ "envoy" ∷ "equal" ∷ "erase"
    ∷ "error" ∷ "erupt" ∷ "essay" ∷ "etch" ∷ "evade" ∷ "even" ∷ "evict" ∷ "evil" ∷ "evoke" ∷ "exact"
    ∷ "exit" ∷ "fable" ∷ "faced" ∷ "fact" ∷ "fade" ∷ "fall" ∷ "false" ∷ "fancy" ∷ "fang" ∷ "fax"
    ∷ "feast" ∷ "feed" ∷ "femur" ∷ "fence" ∷ "fend" ∷ "ferry" ∷ "fetal" ∷ "fetch" ∷ "fever"
    ∷ "fiber" ∷ "fifth" ∷ "fifty" ∷ "film" ∷ "filth" ∷ "final" ∷ "finch" ∷ "fit" ∷ "five" ∷ "flag"
    ∷ "flaky" ∷ "flame" ∷ "flap" ∷ "flask" ∷ "fled" ∷ []

abbrev words_8 : List String
words_8 =
    "flick" ∷ "fling" ∷ "flint" ∷ "flip" ∷ "flirt" ∷ "float" ∷ "flock" ∷ "flop" ∷ "floss" ∷ "flyer"
    ∷ "foam" ∷ "foe" ∷ "fog" ∷ "foil" ∷ "folic" ∷ "folk" ∷ "food" ∷ "fool" ∷ "found" ∷ "fox"
    ∷ "foyer" ∷ "frail" ∷ "frame" ∷ "fray" ∷ "fresh" ∷ "fried" ∷ "frill" ∷ "frisk" ∷ "from"
    ∷ "front" ∷ "frost" ∷ "froth" ∷ "frown" ∷ "froze" ∷ "fruit" ∷ "gag" ∷ "gains" ∷ "gala" ∷ "game"
    ∷ "gap" ∷ "gas" ∷ "gave" ∷ "gear" ∷ "gecko" ∷ "geek" ∷ "gem" ∷ "genre" ∷ "gift" ∷ "gig"
    ∷ "gills" ∷ "given" ∷ "giver" ∷ "glad" ∷ "glass" ∷ []

abbrev words_9 : List String
words_9 =
    "glide" ∷ "gloss" ∷ "glove" ∷ "glow" ∷ "glue" ∷ "goal" ∷ "going" ∷ "golf" ∷ "gong" ∷ "good"
    ∷ "gooey" ∷ "goofy" ∷ "gore" ∷ "gown" ∷ "grab" ∷ "grain" ∷ "grant" ∷ "grape" ∷ "graph" ∷ "grasp"
    ∷ "grass" ∷ "grave" ∷ "gravy" ∷ "gray" ∷ "green" ∷ "greet" ∷ "grew" ∷ "grid" ∷ "grief" ∷ "grill"
    ∷ "grip" ∷ "grit" ∷ "groom" ∷ "grope" ∷ "growl" ∷ "grub" ∷ "grunt" ∷ "guide" ∷ "gulf" ∷ "gulp"
    ∷ "gummy" ∷ "guru" ∷ "gush" ∷ "gut" ∷ "guy" ∷ "habit" ∷ "half" ∷ "halo" ∷ "halt" ∷ "happy"
    ∷ "harm" ∷ "hash" ∷ "hasty" ∷ "hatch" ∷ []

abbrev words_10 : List String
words_10 =
    "hate" ∷ "haven" ∷ "hazel" ∷ "hazy" ∷ "heap" ∷ "heat" ∷ "heave" ∷ "hedge" ∷ "hefty" ∷ "help"
    ∷ "herbs" ∷ "hers" ∷ "hub" ∷ "hug" ∷ "hula" ∷ "hull" ∷ "human" ∷ "humid" ∷ "hump" ∷ "hung"
    ∷ "hunk" ∷ "hunt" ∷ "hurry" ∷ "hurt" ∷ "hush" ∷ "hut" ∷ "ice" ∷ "icing" ∷ "icon" ∷ "icy"
    ∷ "igloo" ∷ "image" ∷ "ion" ∷ "iron" ∷ "islam" ∷ "issue" ∷ "item" ∷ "ivory" ∷ "ivy" ∷ "jab"
    ∷ "jam" ∷ "jaws" ∷ "jazz" ∷ "jeep" ∷ "jelly" ∷ "jet" ∷ "jiffy" ∷ "job" ∷ "jog" ∷ "jolly"
    ∷ "jolt" ∷ "jot" ∷ "joy" ∷ "judge" ∷ []

abbrev words_11 : List String
words_11 =
    "juice" ∷ "juicy" ∷ "july" ∷ "jumbo" ∷ "jump" ∷ "junky" ∷ "juror" ∷ "jury" ∷ "keep" ∷ "keg"
    ∷ "kept" ∷ "kick" ∷ "kilt" ∷ "king" ∷ "kite" ∷ "kitty" ∷ "kiwi" ∷ "knee" ∷ "knelt" ∷ "koala"
    ∷ "kung" ∷ "ladle" ∷ "lady" ∷ "lair" ∷ "lake" ∷ "lance" ∷ "land" ∷ "lapel" ∷ "large" ∷ "lash"
    ∷ "lasso" ∷ "last" ∷ "latch" ∷ "late" ∷ "lazy" ∷ "left" ∷ "legal" ∷ "lemon" ∷ "lend" ∷ "lens"
    ∷ "lent" ∷ "level" ∷ "lever" ∷ "lid" ∷ "life" ∷ "lift" ∷ "lilac" ∷ "lily" ∷ "limb" ∷ "limes"
    ∷ "line" ∷ "lint" ∷ "lion" ∷ "lip" ∷ []

abbrev words_12 : List String
words_12 =
    "list" ∷ "lived" ∷ "liver" ∷ "lunar" ∷ "lunch" ∷ "lung" ∷ "lurch" ∷ "lure" ∷ "lurk" ∷ "lying"
    ∷ "lyric" ∷ "mace" ∷ "maker" ∷ "malt" ∷ "mama" ∷ "mango" ∷ "manor" ∷ "many" ∷ "map" ∷ "march"
    ∷ "mardi" ∷ "marry" ∷ "mash" ∷ "match" ∷ "mate" ∷ "math" ∷ "moan" ∷ "mocha" ∷ "moist" ∷ "mold"
    ∷ "mom" ∷ "moody" ∷ "mop" ∷ "morse" ∷ "most" ∷ "motor" ∷ "motto" ∷ "mount" ∷ "mouse" ∷ "mousy"
    ∷ "mouth" ∷ "move" ∷ "movie" ∷ "mower" ∷ "mud" ∷ "mug" ∷ "mulch" ∷ "mule" ∷ "mull" ∷ "mumbo"
    ∷ "mummy" ∷ "mural" ∷ "muse" ∷ "music" ∷ []

abbrev words_13 : List String
words_13 =
    "musky" ∷ "mute" ∷ "nacho" ∷ "nag" ∷ "nail" ∷ "name" ∷ "nanny" ∷ "nap" ∷ "navy" ∷ "near"
    ∷ "neat" ∷ "neon" ∷ "nerd" ∷ "nest" ∷ "net" ∷ "next" ∷ "niece" ∷ "ninth" ∷ "nutty" ∷ "oak"
    ∷ "oasis" ∷ "oat" ∷ "ocean" ∷ "oil" ∷ "old" ∷ "olive" ∷ "omen" ∷ "onion" ∷ "only" ∷ "ooze"
    ∷ "opal" ∷ "open" ∷ "opera" ∷ "opt" ∷ "otter" ∷ "ouch" ∷ "ounce" ∷ "outer" ∷ "oval" ∷ "oven"
    ∷ "owl" ∷ "ozone" ∷ "pace" ∷ "pagan" ∷ "pager" ∷ "palm" ∷ "panda" ∷ "panic" ∷ "pants" ∷ "panty"
    ∷ "paper" ∷ "park" ∷ "party" ∷ "pasta" ∷ []

abbrev words_14 : List String
words_14 =
    "patch" ∷ "path" ∷ "patio" ∷ "payer" ∷ "pecan" ∷ "penny" ∷ "pep" ∷ "perch" ∷ "perky" ∷ "perm"
    ∷ "pest" ∷ "petal" ∷ "petri" ∷ "petty" ∷ "photo" ∷ "plank" ∷ "plant" ∷ "plaza" ∷ "plead"
    ∷ "plot" ∷ "plow" ∷ "pluck" ∷ "plug" ∷ "plus" ∷ "poach" ∷ "pod" ∷ "poem" ∷ "poet" ∷ "pogo"
    ∷ "point" ∷ "poise" ∷ "poker" ∷ "polar" ∷ "polio" ∷ "polka" ∷ "polo" ∷ "pond" ∷ "pony" ∷ "poppy"
    ∷ "pork" ∷ "poser" ∷ "pouch" ∷ "pound" ∷ "pout" ∷ "power" ∷ "prank" ∷ "press" ∷ "print"
    ∷ "prior" ∷ "prism" ∷ "prize" ∷ "probe" ∷ "prong" ∷ "proof" ∷ []

abbrev words_15 : List String
words_15 =
    "props" ∷ "prude" ∷ "prune" ∷ "pry" ∷ "pug" ∷ "pull" ∷ "pulp" ∷ "pulse" ∷ "puma" ∷ "punch"
    ∷ "punk" ∷ "pupil" ∷ "puppy" ∷ "purr" ∷ "purse" ∷ "push" ∷ "putt" ∷ "quack" ∷ "quake" ∷ "query"
    ∷ "quiet" ∷ "quill" ∷ "quilt" ∷ "quit" ∷ "quota" ∷ "quote" ∷ "rabid" ∷ "race" ∷ "rack" ∷ "radar"
    ∷ "radio" ∷ "raft" ∷ "rage" ∷ "raid" ∷ "rail" ∷ "rake" ∷ "rally" ∷ "ramp" ∷ "ranch" ∷ "range"
    ∷ "rank" ∷ "rant" ∷ "rash" ∷ "raven" ∷ "reach" ∷ "react" ∷ "ream" ∷ "rebel" ∷ "recap" ∷ "relax"
    ∷ "relay" ∷ "relic" ∷ "remix" ∷ "repay" ∷ []

abbrev words_16 : List String
words_16 =
    "repel" ∷ "reply" ∷ "rerun" ∷ "reset" ∷ "rhyme" ∷ "rice" ∷ "rich" ∷ "ride" ∷ "rigid" ∷ "rigor"
    ∷ "rinse" ∷ "riot" ∷ "ripen" ∷ "rise" ∷ "risk" ∷ "ritzy" ∷ "rival" ∷ "river" ∷ "roast" ∷ "robe"
    ∷ "robin" ∷ "rock" ∷ "rogue" ∷ "roman" ∷ "romp" ∷ "rope" ∷ "rover" ∷ "royal" ∷ "ruby" ∷ "rug"
    ∷ "ruin" ∷ "rule" ∷ "runny" ∷ "rush" ∷ "rust" ∷ "rut" ∷ "sadly" ∷ "sage" ∷ "said" ∷ "saint"
    ∷ "salad" ∷ "salon" ∷ "salsa" ∷ "salt" ∷ "same" ∷ "sandy" ∷ "santa" ∷ "satin" ∷ "sauna"
    ∷ "saved" ∷ "savor" ∷ "sax" ∷ "say" ∷ "scale" ∷ []

abbrev words_17 : List String
words_17 =
    "scam" ∷ "scan" ∷ "scare" ∷ "scarf" ∷ "scary" ∷ "scoff" ∷ "scold" ∷ "scoop" ∷ "scoot" ∷ "scope"
    ∷ "score" ∷ "scorn" ∷ "scout" ∷ "scowl" ∷ "scrap" ∷ "scrub" ∷ "scuba" ∷ "scuff" ∷ "sect"
    ∷ "sedan" ∷ "self" ∷ "send" ∷ "sepia" ∷ "serve" ∷ "set" ∷ "seven" ∷ "shack" ∷ "shade" ∷ "shady"
    ∷ "shaft" ∷ "shaky" ∷ "sham" ∷ "shape" ∷ "share" ∷ "sharp" ∷ "shed" ∷ "sheep" ∷ "sheet"
    ∷ "shelf" ∷ "shell" ∷ "shine" ∷ "shiny" ∷ "ship" ∷ "shirt" ∷ "shock" ∷ "shop" ∷ "shore"
    ∷ "shout" ∷ "shove" ∷ "shown" ∷ "showy" ∷ "shred" ∷ "shrug" ∷ "shun" ∷ []

abbrev words_18 : List String
words_18 =
    "shush" ∷ "shut" ∷ "shy" ∷ "sift" ∷ "silk" ∷ "silly" ∷ "silo" ∷ "sip" ∷ "siren" ∷ "sixth"
    ∷ "size" ∷ "skate" ∷ "skew" ∷ "skid" ∷ "skier" ∷ "skies" ∷ "skip" ∷ "skirt" ∷ "skit" ∷ "sky"
    ∷ "slab" ∷ "slack" ∷ "slain" ∷ "slam" ∷ "slang" ∷ "slash" ∷ "slate" ∷ "slaw" ∷ "sled" ∷ "sleek"
    ∷ "sleep" ∷ "sleet" ∷ "slept" ∷ "slice" ∷ "slick" ∷ "slimy" ∷ "sling" ∷ "slip" ∷ "slit" ∷ "slob"
    ∷ "slot" ∷ "slug" ∷ "slum" ∷ "slurp" ∷ "slush" ∷ "small" ∷ "smash" ∷ "smell" ∷ "smile" ∷ "smirk"
    ∷ "smog" ∷ "snack" ∷ "snap" ∷ "snare" ∷ []

abbrev words_19 : List String
words_19 =
    "snarl" ∷ "sneak" ∷ "sneer" ∷ "sniff" ∷ "snore" ∷ "snort" ∷ "snout" ∷ "snowy" ∷ "snub" ∷ "snuff"
    ∷ "speak" ∷ "speed" ∷ "spend" ∷ "spent" ∷ "spew" ∷ "spied" ∷ "spill" ∷ "spiny" ∷ "spoil"
    ∷ "spoke" ∷ "spoof" ∷ "spool" ∷ "spoon" ∷ "sport" ∷ "spot" ∷ "spout" ∷ "spray" ∷ "spree"
    ∷ "spur" ∷ "squad" ∷ "squat" ∷ "squid" ∷ "stack" ∷ "staff" ∷ "stage" ∷ "stain" ∷ "stall"
    ∷ "stamp" ∷ "stand" ∷ "stank" ∷ "stark" ∷ "start" ∷ "stash" ∷ "state" ∷ "stays" ∷ "steam"
    ∷ "steep" ∷ "stem" ∷ "step" ∷ "stew" ∷ "stick" ∷ "sting" ∷ "stir" ∷ "stock" ∷ []

abbrev words_20 : List String
words_20 =
    "stole" ∷ "stomp" ∷ "stony" ∷ "stood" ∷ "stool" ∷ "stoop" ∷ "stop" ∷ "storm" ∷ "stout" ∷ "stove"
    ∷ "straw" ∷ "stray" ∷ "strut" ∷ "stuck" ∷ "stud" ∷ "stuff" ∷ "stump" ∷ "stung" ∷ "stunt"
    ∷ "suds" ∷ "sugar" ∷ "sulk" ∷ "surf" ∷ "sushi" ∷ "swab" ∷ "swan" ∷ "swarm" ∷ "sway" ∷ "swear"
    ∷ "sweat" ∷ "sweep" ∷ "swell" ∷ "swept" ∷ "swim" ∷ "swing" ∷ "swipe" ∷ "swirl" ∷ "swoop"
    ∷ "swore" ∷ "syrup" ∷ "tacky" ∷ "taco" ∷ "tag" ∷ "take" ∷ "tall" ∷ "talon" ∷ "tamer" ∷ "tank"
    ∷ "taper" ∷ "taps" ∷ "tarot" ∷ "tart" ∷ "task" ∷ "taste" ∷ []

abbrev words_21 : List String
words_21 =
    "tasty" ∷ "taunt" ∷ "thank" ∷ "thaw" ∷ "theft" ∷ "theme" ∷ "thigh" ∷ "thing" ∷ "think" ∷ "thong"
    ∷ "thorn" ∷ "those" ∷ "throb" ∷ "thud" ∷ "thumb" ∷ "thump" ∷ "thus" ∷ "tiara" ∷ "tidal" ∷ "tidy"
    ∷ "tiger" ∷ "tile" ∷ "tilt" ∷ "tint" ∷ "tiny" ∷ "trace" ∷ "track" ∷ "trade" ∷ "train" ∷ "trait"
    ∷ "trap" ∷ "trash" ∷ "tray" ∷ "treat" ∷ "tree" ∷ "trek" ∷ "trend" ∷ "trial" ∷ "tribe" ∷ "trick"
    ∷ "trio" ∷ "trout" ∷ "truce" ∷ "truck" ∷ "trump" ∷ "trunk" ∷ "try" ∷ "tug" ∷ "tulip" ∷ "tummy"
    ∷ "turf" ∷ "tusk" ∷ "tutor" ∷ "tutu" ∷ []

abbrev words_22 : List String
words_22 =
    "tux" ∷ "tweak" ∷ "tweet" ∷ "twice" ∷ "twine" ∷ "twins" ∷ "twirl" ∷ "twist" ∷ "uncle" ∷ "uncut"
    ∷ "undo" ∷ "unify" ∷ "union" ∷ "unit" ∷ "untie" ∷ "upon" ∷ "upper" ∷ "urban" ∷ "used" ∷ "user"
    ∷ "usher" ∷ "utter" ∷ "value" ∷ "vapor" ∷ "vegan" ∷ "venue" ∷ "verse" ∷ "vest" ∷ "veto" ∷ "vice"
    ∷ "video" ∷ "view" ∷ "viral" ∷ "virus" ∷ "visa" ∷ "visor" ∷ "vixen" ∷ "vocal" ∷ "voice" ∷ "void"
    ∷ "volt" ∷ "voter" ∷ "vowel" ∷ "wad" ∷ "wafer" ∷ "wager" ∷ "wages" ∷ "wagon" ∷ "wake" ∷ "walk"
    ∷ "wand" ∷ "wasp" ∷ "watch" ∷ "water" ∷ []

abbrev words_23 : List String
words_23 =
    "wavy" ∷ "wheat" ∷ "whiff" ∷ "whole" ∷ "whoop" ∷ "wick" ∷ "widen" ∷ "widow" ∷ "width" ∷ "wife"
    ∷ "wifi" ∷ "wilt" ∷ "wimp" ∷ "wind" ∷ "wing" ∷ "wink" ∷ "wipe" ∷ "wired" ∷ "wiry" ∷ "wise"
    ∷ "wish" ∷ "wispy" ∷ "wok" ∷ "wolf" ∷ "womb" ∷ "wool" ∷ "woozy" ∷ "word" ∷ "work" ∷ "worry"
    ∷ "wound" ∷ "woven" ∷ "wrath" ∷ "wreck" ∷ "wrist" ∷ "xerox" ∷ "yahoo" ∷ "yam" ∷ "yard" ∷ "year"
    ∷ "yeast" ∷ "yelp" ∷ "yield" ∷ "yo-yo" ∷ "yodel" ∷ "yoga" ∷ "yoyo" ∷ "yummy" ∷ "zebra" ∷ "zero"
    ∷ "zesty" ∷ "zippy" ∷ "zone" ∷ "zoom" ∷ []

abbrev pub eff_words : List Bytes
eff_words = map codes (
    words_0 ++ words_1 ++ words_2 ++ words_3 ++ words_4 ++ words_5 ++ words_6 ++ words_7 ++ words_8
    ++ words_9 ++ words_10 ++ words_11 ++ words_12 ++ words_13 ++ words_14 ++ words_15 ++ words_16
    ++ words_17 ++ words_18 ++ words_19 ++ words_20 ++ words_21 ++ words_22 ++ words_23)

-- The four dice of the roll `n`, each a digit from 1 to 6.
abbrev dice : ℕ → Bytes → Bytes
dice n tail =
    (b'1' + n / 216 % 6) ∷ (b'1' + n / 36 % 6) ∷ (b'1' + n / 6 % 6) ∷ (b'1' + n % 6) ∷ tail

-- The lines from the roll `n` on.
abbrev lines_from : ℕ → List Bytes → Bytes
lines_from n [] = []
lines_from n (word ∷ words) = dice n (b'\t' ∷ (word ++ (b'\n' ∷ lines_from (suc n) words)))

-- `rawWordlist`.
unfoldable pub raw_wordlist : Bytes
raw_wordlist = lines_from 0 eff_words
